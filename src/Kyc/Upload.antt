-- ===== src/Kyc/Upload.antt =====
-- Uploads and submissions in apps/api/src/kyc/kyc.service.ts.
use Prim.Native.String
use afro_pay_stellar.Prelude.{
  ℕ, ◌+◌, ◌*◌, ltb, String, Bool, false, not, ◌||◌, Option, none, some, str_eq, if◌then◌else◌,
  Table, bad_request, forbidden, not_found, failure, Result, ok, err, Exec, pure, throw, or_throw,
  lift, modify, throw_if, ◌>>=◌, ◌>>◌,
}
use afro_pay_stellar.Kyc.{
  KycStatus, pending, KycTier, KycRecord, upsert, KycEvent, upload_url_generated, hash_mismatch,
  upload_confirmed, Head, found, missing, unreachable, Storage, max_upload_bytes,
  presigned_url_ttl_seconds, starts_with, key_prefix, is_hex_text, is_lower_of, document_ref_of,
}

-- `Log` is the log of the audit; `write` gives none where it fails, which is caught.
pub record KycServices : Type 1 where
  pub table : Table KycRecord
  pub storage : Storage
  pub Log : Type 0
  pub write_log : String → KycEvent → Log → Option Log

pub record KycState (env : KycServices) : Type 0 where
  pub records : env.table.Rows
  pub log : env.Log

pub record GenerateUploadUrlResult : Type 0 where
  pub upload_url : String
  pub s3_key : String
  pub expires_at : ℕ

pub record ConfirmUploadResult : Type 0 where
  pub document_ref : String
  pub verified_at : ℕ

pub record KycSubmit : Type 0 where
  pub document_type : Option String
  pub document_url : Option String

-- `ALLOWED_CONTENT_TYPES`
abbrev pub is_allowed : String → Bool
is_allowed t =
    str_eq t "image/jpeg"
    || str_eq t "image/png"
    || str_eq t "image/webp"
    || str_eq t "application/pdf"

abbrev pub extension_for_content_type : String → String
extension_for_content_type t =
    if str_eq t "image/jpeg"
    then ".jpg"
    else (if str_eq t "image/png"
        then ".png"
        else (if str_eq t "image/webp"
            then ".webp"
            else (if str_eq t "application/pdf" then ".pdf" else "")))

-- The size of an object that is there, with the error of `HeadObject`.
abbrev pub size_of : Head → Result ℕ
size_of (found (some n)) = ok n
size_of (found none) = ok 0
size_of missing = err not_found
size_of unreachable = err failure

-- `data.documentType && !validDocTypes.includes(data.documentType)`
abbrev pub is_bad_type : Option String → Bool
is_bad_type none = false
is_bad_type (some t) =
    not (str_eq t "" || str_eq t "PASSPORT" || str_eq t "NATIONAL_ID" || str_eq t "DRIVERS_LICENSE")

-- `data.documentUrl || null`
abbrev pub if_url : Option String → Option String
if_url none = none
if_url (some u) = if str_eq u "" then none else some u

module _ (env : KycServices) where
  abbrev pub logged : Option env.Log → env.Log → env.Log
  logged none log = log
  logged (some log') log = log'

  unfoldable pub write_audit_log : String → KycEvent → Exec (KycState env) (Unit {0})
  write_audit_log user event =
      modify (λ s. record s { log = logged (env.write_log user event s.log) s.log })

  -- `object_id` is a random UUID.
  unfoldable pub generate_upload_url :
      ℕ → String → String → String → Exec (KycState env) GenerateUploadUrlResult
  unfolding write_audit_log
  generate_upload_url now object_id user content_type =
      let key =
        String.◌++◌ (key_prefix user)
          (String.◌++◌ object_id (extension_for_content_type content_type)) in
      do
        throw_if (not (is_allowed content_type)) bad_request
        url ← or_throw (env.storage.sign_url key) failure
        write_audit_log user upload_url_generated
        pure (record {
          upload_url = url;
          s3_key = key;
          expires_at = now + presigned_url_ttl_seconds * 1000;
        })

  abbrev pub confirm : ℕ → String → KycRecord → KycRecord
  confirm now ref r = record r {
    status = pending;
    document_ref = some ref;
    submitted_at = some now;
  }

  abbrev pub store_record : String → (KycRecord → KycRecord) → Exec (KycState env) (Unit {0})
  store_record user f s = (ok tt, record s { records = upsert env.table user f s.records })

  unfoldable pub confirm_matching :
      ℕ → String → String → String → Exec (KycState env) ConfirmUploadResult
  unfolding write_audit_log upsert
  confirm_matching now user key hash = do
    store_record user (confirm now (document_ref_of key hash))
    write_audit_log user upload_confirmed
    pure (record { document_ref = document_ref_of key hash; verified_at = now })

  -- After the digest is computed: the comparison, and the record.
  unfoldable pub confirm_hash :
      ℕ → String → String → String → String → Exec (KycState env) ConfirmUploadResult
  unfolding confirm_matching write_audit_log
  confirm_hash now user key expected hash =
      if is_lower_of hash expected
      then confirm_matching now user key hash
      else (write_audit_log user hash_mismatch >> throw bad_request)

  unfoldable pub confirm_upload :
      ℕ → String → String → String → Exec (KycState env) ConfirmUploadResult
  unfolding confirm_hash
  confirm_upload now user key expected = do
    throw_if (not (starts_with (key_prefix user) key)) forbidden
    throw_if (not (is_hex_text 64 expected)) bad_request
    size ← lift (size_of (env.storage.head key))
    throw_if (ltb max_upload_bytes size) bad_request
    hash ← or_throw (env.storage.digest key) failure
    confirm_hash now user key expected hash

  -- A field that is not given stays as it is.
  abbrev pub set_type : Option String → KycRecord → KycRecord
  set_type none r = r
  set_type (some t) r = record r { document_type = some t }

  abbrev pub submitted : ℕ → KycSubmit → KycRecord → KycRecord
  submitted now form r = record (set_type form.document_type r) {
    status = pending;
    document_ref = if_url form.document_url;
    submitted_at = some now;
  }

  unfoldable pub submit_kyc : ℕ → String → KycSubmit → Exec (KycState env) (Unit {0})
  unfolding upsert
  submit_kyc now user form = do
    throw_if (is_bad_type form.document_type) bad_request
    store_record user (submitted now form)

  abbrev pub set_status : Option KycStatus → KycRecord → KycRecord
  set_status none r = r
  set_status (some s) r = record r { status = s }

  abbrev pub set_tier : Option KycTier → KycRecord → KycRecord
  set_tier none r = r
  set_tier (some t) r = record r { tier = t }

  abbrev pub set_reason : Option String → KycRecord → KycRecord
  set_reason none r = r
  set_reason (some t) r = record r { rejection_reason = some t }

  abbrev pub reviewed :
      ℕ → Option KycStatus → Option KycTier → Option String → KycRecord → KycRecord
  reviewed now status tier reason r =
      record (set_reason reason (set_tier tier (set_status status r))) { reviewed_at = some now }

  unfoldable pub update_kyc_record :
      ℕ
      → String
      → Option KycStatus
      → Option KycTier
      → Option String
      → Exec (KycState env) (Unit {0})
  unfolding upsert
  update_kyc_record now user status tier reason =
      store_record user (reviewed now status tier reason)
