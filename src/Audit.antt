-- ===== src/Audit.antt =====
-- apps/api/src/audit/audit.service.ts: the append-only audit log whose entries form a hash chain.
-- The digest (SHA-256 of the JSON text of the canonical entry) and the database are parameters;
-- the identifier and the time of an entry come from the database.
pub mod Chain
pub mod Trigger
pub mod Query
mod Tests
use mathlib.Core.List.{head?}
use afro_pay_stellar.Prelude.{
  ℕ, String, ◌≡◌, Option, none, some, List, [], ◌∷◌, map, str_eq, if◌then◌else◌, Error, Result, ok,
  err, Exec, ◌>>=◌, ◌>>◌, pure, gets, lift,
}

-- A flat JSON object: the names and the texts of its fields, or null.
abbrev pub Metadata : Type 0
Metadata = List (String × Option String)

-- The arguments of `log`.
pub record AuditLogOptions : Type 0 where
  pub user_id : Option String
  pub category : Option String
  pub operation : Option String
  pub outcome : Option String
  pub wallet_public_key : Option String
  pub amount : Option String
  pub asset_code : Option String
  pub destination : Option String
  pub tx_hash : Option String
  pub metadata : Option Metadata

-- What the services that write to the log see of it: `log` returns nothing and never throws.
pub record AuditSink : Type 1 where
  pub Log : Type 0
  pub log : AuditLogOptions → Log → Log

-- The legacy form `log(userId, action, metadata)`.
pub data LogCall : Type 0 where
  structured : AuditLogOptions → LogCall
  positional : (user_id action : Option String) (metadata : Option Metadata) → LogCall

-- The payload of an entry, without its identity and its hashes.
pub record Payload : Type 0 where
  pub user_id : Option String
  pub category : String
  pub operation : String
  pub outcome : String
  pub wallet_public_key : Option String
  pub amount : Option String
  pub asset_code : Option String
  pub destination : Option String
  pub tx_hash : Option String
  pub metadata : Option Metadata

abbrev default : Option String → String → String
default none d = d
default (some s) d = s

unfoldable pub payload : LogCall → Payload
payload (structured opts) = record {
  user_id = opts.user_id;
  category = default opts.category "GENERAL";
  operation = default opts.operation "ACTION";
  outcome = default opts.outcome "SUCCESS";
  wallet_public_key = opts.wallet_public_key;
  amount = opts.amount;
  asset_code = opts.asset_code;
  destination = opts.destination;
  tx_hash = opts.tx_hash;
  metadata = opts.metadata;
}
payload (positional user_id action metadata) = record {
  user_id = user_id;
  category = "GENERAL";
  operation = default action "ACTION";
  outcome = "SUCCESS";
  wallet_public_key = none;
  amount = none;
  asset_code = none;
  destination = none;
  tx_hash = none;
  metadata = metadata;
}

-- What `hashEntry` hashes.
pub record Canonical (Digest : Type 0) : Type 0 where
  pub id : String
  pub payload : Payload
  pub previous_hash : Option Digest
  pub created_at : ℕ

pub record Entry (Digest : Type 0) : Type 0 where
  pub canonical : Canonical Digest
  pub hash : Option Digest

-- The table `AuditLog`, newest entry first. `create` gives an entry its identifier and its time.
pub record AuditTable (Digest : Type 0) : Type 1 where
  pub Rows : Type 0
  pub entries : Rows → List (Entry Digest)
  pub find_first : Rows → Result (Option (Entry Digest))
  pub create : Payload → Option Digest → Exec Rows (Canonical Digest)
  pub update_hash : String → Digest → Exec Rows (Unit {0})

module _ {Digest : Type 0} where
  -- `update({ where: { id }, data: { hash } })` on the entries.
  abbrev pub seal : String → Digest → List (Entry Digest) → List (Entry Digest)
  seal i h [] = []
  seal i h (e ∷ es) =
      (if str_eq e.canonical.id i then record e { hash = some h } else e) ∷ seal i h es

  -- `previous?.hash ?? null`
  abbrev pub head_hash : Option (Entry Digest) → Option Digest
  head_hash none = none
  head_hash (some e) = e.hash

module _ {Digest : Type 0} (digest : Canonical Digest → Digest) (table : AuditTable Digest) where
  append : LogCall → Exec table.Rows (Unit {0})
  append call = do
    found ← gets table.find_first
    previous ← lift found
    let previous_hash = head_hash previous
    created ← table.create (payload call) previous_hash
    table.update_hash created.id (digest (record created { previous_hash = previous_hash }))

  -- The `catch` drops every error.
  pub log : LogCall → table.Rows → table.Rows
  unfolding append
  log call t = (append call t).1
