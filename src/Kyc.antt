-- ===== src/Kyc.antt =====
-- apps/api/src/kyc/kyc.service.ts: the documents of a user, and the limits of a day. The table of
-- records, the store of documents, the log, the digests and the amounts are arguments.
pub mod Upload
pub mod Limits
pub mod Spent
pub mod Day
pub mod Confirmed
mod Tests
use Prim.Native.Char.{Char, code}
use Prim.Native.String
use afro_pay_stellar.Prelude.{
  ℕ, zero, suc, ◌+◌, ◌*◌, String, Bool, true, false, ◌&&◌, ◌||◌, Option, none, some, leb, ◌==◌,
  if◌then◌else◌, Table,
}

pub data KycStatus : Type 0 where
  pending approved rejected : KycStatus

pub data KycTier : Type 0 where
  none_tier basic full : KycTier

-- The row's own identifier, the names and the photo, which no operation here uses, are left out.
pub record KycRecord : Type 0 where
  pub user_id : String
  pub status : KycStatus
  pub tier : KycTier
  pub document_type : Option String
  pub document_ref : Option String
  pub submitted_at : Option ℕ
  pub reviewed_at : Option ℕ
  pub rejection_reason : Option String

-- A row with the defaults of the schema.
abbrev pub blank : String → KycRecord
blank user = record {
  user_id = user;
  status = pending;
  tier = none_tier;
  document_type = none;
  document_ref = none;
  submitted_at = none;
  reviewed_at = none;
  rejection_reason = none;
}

-- `upsert` where `create` and `update` set the same fields: on the row of the user or on a blank one.
abbrev pub or_blank : String → Option KycRecord → KycRecord
or_blank user none = blank user
or_blank user (some r) = r

pub upsert : (table : Table KycRecord) → String → (KycRecord → KycRecord) → table.Rows → table.Rows
upsert table user f rows = table.write user (f (or_blank user (table.find user rows))) rows

pub data KycEvent : Type 0 where
  upload_url_generated hash_mismatch upload_confirmed : KycEvent

-- `HeadObject`: the size, if it is given; no such object; another failure.
pub data Head : Type 0 where
  found : Option ℕ → Head
  missing : Head
  unreachable : Head

-- The store of documents. `digest` is the SHA-256 of an object as lower-case hex digits.
pub record Storage : Type 0 where
  pub head : String → Head
  pub digest : String → Option String
  pub sign_url : String → Option String

abbrev pub max_upload_bytes : ℕ
max_upload_bytes = 10 * 1024 * 1024

abbrev pub presigned_url_ttl_seconds : ℕ
presigned_url_ttl_seconds = 15 * 60

-- `String.prototype.startsWith`
abbrev pub starts_with : String → String → Bool
starts_with String.[] s = true
starts_with (String.◌∷◌ c p) String.[] = false
starts_with (String.◌∷◌ c p) (String.◌∷◌ d s) = code c == code d && starts_with p s

-- `kyc/${userId}/`
abbrev pub key_prefix : String → String
key_prefix user = String.◌++◌ "kyc/" (String.◌++◌ user "/")

-- `[0-9a-f]`, in either case
abbrev pub is_hex : Char → Bool
is_hex c =
    (leb 48 (code c) && leb (code c) 57)
    || (leb 97 (code c) && leb (code c) 102)
    || (leb 65 (code c) && leb (code c) 70)

-- `^[0-9a-f]{n}$`
abbrev pub is_hex_text : ℕ → String → Bool
is_hex_text zero String.[] = true
is_hex_text zero (String.◌∷◌ c s) = false
is_hex_text (suc n) String.[] = false
is_hex_text (suc n) (String.◌∷◌ c s) = is_hex c && is_hex_text n s

-- `toLowerCase` on hex digits
abbrev pub lower_code : ℕ → ℕ
lower_code n = if leb 65 n && leb n 70 then n + 32 else n

-- `computed === expected.toLowerCase()`
abbrev pub is_lower_of : String → String → Bool
is_lower_of String.[] String.[] = true
is_lower_of String.[] (String.◌∷◌ d t) = false
is_lower_of (String.◌∷◌ c s) String.[] = false
is_lower_of (String.◌∷◌ c s) (String.◌∷◌ d t) = code c == lower_code (code d) && is_lower_of s t

abbrev pub document_ref_of : String → String → String
document_ref_of key hash = String.◌++◌ key (String.◌++◌ ":" hash)
