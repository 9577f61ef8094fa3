-- ===== src/Sep24.antt =====
-- apps/api/src/anchor/sep24.service.ts: interactive sessions of deposits and withdrawals (SEP-24).
-- The table of sessions, the JSON web tokens, the random identifiers and memos, the URL and the clock
-- (milliseconds) are arguments.
pub mod Sessions
pub mod Steps
pub mod Settled
pub mod Once
pub mod Expiry
pub mod Race
mod Tests
use afro_pay_stellar.Prelude.{
  ℕ, ◌+◌, ◌*◌, min, String, Bool, true, false, not, Option, none, some, List, map, ltb, str_eq,
  if◌then◌else◌, Error, bad_request, unauthorized, not_found, failure, Exec, pure, throw, gets,
  or_throw, modify, throw_if, ◌>>=◌, ◌>>◌,
}

pub data Kind : Type 0 where
  deposit withdraw : Kind

pub data Status : Type 0 where
  incomplete pending_user_transfer_start pending_anchor pending_external completed refunded
        expired :
      Status
  error : Status

abbrev pub is_incomplete : Status → Bool
is_incomplete incomplete = true
is_incomplete _ = false

-- `Json` is what the form of the webview sends.
pub record Session (Json : Type 0) : Type 0 where
  pub id : String
  pub kind : Kind
  pub status : Status
  pub stellar_account : String
  pub asset_code : String
  pub asset_issuer : Option String
  pub amount : Option String
  pub session_token : String
  pub session_expires_at : ℕ
  pub kyc_data : Option Json
  pub payment_method : Option String
  pub stellar_tx_hash : Option String
  pub memo : Option String
  pub memo_type : Option String
  pub message : Option String
  pub created_at : ℕ
  pub updated_at : ℕ

-- What a session token carries.
pub record Sep24SessionPayload : Type 0 where
  pub tx_id : String
  pub account : String
  pub kind : Kind

-- The service of tokens: `sign` at a time with a lifetime in seconds, `verify` at a time.
pub record Jwt : Type 0 where
  pub sign : Sep24SessionPayload → ℕ → ℕ → String
  pub verify : String → ℕ → Option Sep24SessionPayload

pub record Filter : Type 0 where
  pub by_account : String
  pub by_asset : Option String
  pub by_kind : Option String

-- The table, with its two unique keys. `create` gives none when a key is taken.
pub record SessionTable (Json : Type 0) : Type 1 where
  pub Rows : Type 0
  pub find_token : String → Rows → Option (Session Json)
  pub find_id : String → Rows → Option (Session Json)
  pub create : Session Json → Rows → Option Rows
  pub write : Session Json → Rows → Rows
  pub find_many : Filter → ℕ → Rows → List (Session Json)

pub record SessionData : Type 0 where
  pub id : String
  pub kind : Kind
  pub stellar_account : String
  pub asset_code : String
  pub asset_issuer : Option String
  pub amount : Option String
  pub status : Status

pub record Interactive : Type 0 where
  pub url : String
  pub id : String

pub record Confirmed : Type 0 where
  pub id : String
  pub status : Status
  pub kind : Kind
  pub asset_code : String
  pub amount : Option String
  pub memo : Option String
  pub memo_type : Option String
  pub message : Option String

-- `formatTransaction`; the dates stay numbers.
pub record Sep24Response : Type 0 where
  pub id : String
  pub kind : Kind
  pub status : Status
  pub stellar_account : String
  pub asset_code : String
  pub asset_issuer : Option String
  pub amount_in : Option String
  pub amount_out : Option String
  pub started_at : ℕ
  pub completed_at : Option ℕ
  pub stellar_transaction_id : Option String
  pub memo : Option String
  pub memo_type : Option String
  pub message : Option String

abbrev pub completed_at : Status → ℕ → Option ℕ
completed_at completed at = some at
completed_at _ at = none

-- `where.assetCode` and `where.kind` are set by texts that are not empty.
abbrev pub if_given : Option String → Option String
if_given none = none
if_given (some s) = if str_eq s "" then none else some s

-- `amount ?? tx.amount`
abbrev pub or_else {ℓ} : {A : Type ℓ} → Option A → Option A → Option A
or_else (some a) b = some a
or_else none b = b

pub format_transaction : {Json : Type 0} → Session Json → Sep24Response
format_transaction tx = record {
  id = tx.id;
  kind = tx.kind;
  status = tx.status;
  stellar_account = tx.stellar_account;
  asset_code = tx.asset_code;
  asset_issuer = tx.asset_issuer;
  amount_in = tx.amount;
  amount_out = tx.amount;
  started_at = tx.created_at;
  completed_at = completed_at tx.status tx.updated_at;
  stellar_transaction_id = tx.stellar_tx_hash;
  memo = tx.memo;
  memo_type = tx.memo_type;
  message = tx.message;
}

-- The row of a new session: the defaults of the schema, and what `create` is given.
abbrev pub new_session :
    {Json : Type 0}
    → String
    → ℕ
    → ℕ
    → String
    → Kind
    → String
    → Option String
    → Option String
    → String
    → Session Json
new_session id now ttl account kind asset_code asset_issuer amount token = record {
  id = id;
  kind = kind;
  status = incomplete;
  stellar_account = account;
  asset_code = asset_code;
  asset_issuer = asset_issuer;
  amount = amount;
  session_token = token;
  session_expires_at = now + ttl * 1_000;
  kyc_data = none;
  payment_method = none;
  stellar_tx_hash = none;
  memo = none;
  memo_type = none;
  message = none;
  created_at = now;
  updated_at = now;
}

abbrev pub expired_row : {Json : Type 0} → ℕ → Session Json → Session Json
expired_row now tx = record tx {
  status = expired;
  message = some "Session expired";
  updated_at = now;
}

abbrev pub data_of : {Json : Type 0} → Session Json → SessionData
data_of tx = record {
  id = tx.id;
  kind = tx.kind;
  stellar_account = tx.stellar_account;
  asset_code = tx.asset_code;
  asset_issuer = tx.asset_issuer;
  amount = tx.amount;
  status = tx.status;
}

abbrev pub confirmed_row :
    {Json : Type 0} → ℕ → String → Json → String → Option String → Session Json → Session Json
confirmed_row now memo kyc_data payment_method amount tx = record tx {
  status = pending_user_transfer_start;
  kyc_data = some kyc_data;
  payment_method = some payment_method;
  amount = or_else amount tx.amount;
  memo = some memo;
  memo_type = some "text";
  message = some "KYC data received. Waiting for on-chain transfer.";
  updated_at = now;
}

abbrev pub confirmation : {Json : Type 0} → Session Json → Confirmed
confirmation tx = record {
  id = tx.id;
  status = tx.status;
  kind = tx.kind;
  asset_code = tx.asset_code;
  amount = tx.amount;
  memo = tx.memo;
  memo_type = tx.memo_type;
  message = tx.message;
}
