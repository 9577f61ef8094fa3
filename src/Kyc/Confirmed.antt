-- ===== src/Kyc/Confirmed.antt =====
-- `confirmUpload` of apps/api/src/kyc/kyc.service.ts: what a confirmed document has passed.
use afro_pay_stellar.Prelude.{
  ℕ, ◌≤◌, ltb, arith, String, ◌≡◌, refl, sym, ◌∙◌, ap, Bool, true, false, true≢false, not, some,
  find-write_here, find-write_there, str_eq, str_eq_iff, bad_request, forbidden, failure, Error,
  Result, err, ok, ◌>>=◌, Ends, Triple, Triple-bind, Triple-throw_if, Triple-lift, Triple-or_throw,
  Triple-if, Triple-modify, Triple-throw, Triple-given,
}
use afro_pay_stellar.Kyc.{
  or_blank, upsert, max_upload_bytes, starts_with, key_prefix, is_hex_text, is_lower_of,
  document_ref_of,
}
use afro_pay_stellar.Kyc.Upload.{
  KycServices, KycState, ConfirmUploadResult, size_of, write_audit_log, confirm, confirm_matching,
  confirm_hash, confirm_upload,
}

true_of_not : {b : Bool} → not b ≡ false → b ≡ true
true_of_not {b = true} h = refl
true_of_not {b = false} h = absurd (true≢false h)

module _ (env : KycServices) where
  -- What is known of the object under `key` whose digest is `hash`.
  pub record HasPassed (user key expected hash : String) : Type 0 where
    pub is_sha256 : is_hex_text 64 expected ≡ true
    pub of_user : starts_with (key_prefix user) key ≡ true
    pub is_digest : env.storage.digest key ≡ some hash
    pub is_expected : is_lower_of hash expected ≡ true
    pub bytes : ℕ
    pub has_size : size_of (env.storage.head key) ≡ ok bytes
    pub small : bytes ≤ max_upload_bytes

  -- The row of the user before and after, and the rows of the others.
  pub record IsConfirmed (now : ℕ) (user ref : String) (before after : env.table.Rows)
      : Type 0 where
    pub own :
        env.table.find user after
        ≡ some (confirm env now ref (or_blank user (env.table.find user before)))
    pub others :
        (other : String)
        → str_eq user other ≡ false
        → env.table.find other after ≡ env.table.find other before

  pub record IsVerified (now : ℕ) (user key expected : String) (before : KycState env)
      (result : ConfirmUploadResult) (after : KycState env) : Type 0 where
    pub hash : String
    pub passed : HasPassed user key expected hash
    pub ref : result.document_ref ≡ document_ref_of key hash
    pub row : IsConfirmed now user result.document_ref before.records after.records

  abbrev pub SameRecords : KycState env → KycState env → Type 0
  SameRecords s t = t.records ≡ s.records

  upsert-IsConfirmed :
      (now : ℕ) (user ref : String) (rows : env.table.Rows)
      → IsConfirmed now user ref rows (upsert env.table user (confirm env now ref) rows)
  unfolding upsert
  upsert-IsConfirmed now user ref rows = record {
    own = find-write_here env.table user user _ rows ((str_eq_iff user user).1 refl);
    others = λ other h. find-write_there env.table user other _ rows h;
  }

  confirm_matching-IsVerified :
      (now : ℕ) (user key expected hash : String) (s : KycState env)
      → HasPassed user key expected hash
      → Ends
          (IsVerified now user key expected s)
          (SameRecords s)
          (confirm_matching env now user key hash s).0
          (confirm_matching env now user key hash s).1
  unfolding confirm_matching write_audit_log ◌>>=◌
  confirm_matching-IsVerified now user key expected hash s h = record {
    hash = hash;
    passed = h;
    ref = refl;
    row = upsert-IsConfirmed now user (document_ref_of key hash) s.records;
  }

  confirm_hash-IsVerified :
      (now : ℕ) (user key expected hash : String) (s : KycState env) (n : ℕ)
      → starts_with (key_prefix user) key ≡ true
      → is_hex_text 64 expected ≡ true
      → size_of (env.storage.head key) ≡ ok n
      → n ≤ max_upload_bytes
      → env.storage.digest key ≡ some hash
      → Triple
          (λ t. t ≡ s)
          (confirm_hash env now user key expected hash)
          (IsVerified now user key expected s)
          (SameRecords s)
  unfolding confirm_hash write_audit_log
  confirm_hash-IsVerified now user key expected hash s n own formed size small digest =
      Triple-if (is_lower_of hash expected) _ _
        (λ e. record {
          run = λ t h. rw h (
              confirm_matching-IsVerified now user key expected hash s (record {
                is_sha256 = formed;
                of_user = own;
                is_digest = digest;
                is_expected = e;
                bytes = n;
                has_size = size;
                small = small;
              }));
        })
        (λ e.
          Triple-bind (λ _ t. SameRecords s t) (Triple-modify _ (λ t h. ap (λ x. x.records) h))
            (λ _. Triple-throw bad_request (λ t h. h)))

  not_above : (n : ℕ) → n ≤ max_upload_bytes → ltb max_upload_bytes n ≡ false
  not_above n h = ground (arith, h)

  small_enough : (n : ℕ) → ltb max_upload_bytes n ≡ false → n ≤ max_upload_bytes
  small_enough n h = ground (arith, h)

  pub confirm_upload-Triple :
      (now : ℕ) (user key expected : String) (s : KycState env)
      → Triple
          (λ t. t ≡ s)
          (confirm_upload env now user key expected)
          (IsVerified now user key expected s)
          (SameRecords s)
  unfolding confirm_upload
  confirm_upload-Triple now user key expected s =
      let same : (t : KycState env) → t ≡ s → SameRecords s t = λ t h. ap (λ x. x.records) h in
      Triple-bind (λ _ t. (t ≡ s) × (starts_with (key_prefix user) key ≡ true))
        (Triple-throw_if (not (starts_with (key_prefix user) key)) forbidden same
          (λ h t e. (e, true_of_not h)))
        (λ _. Triple-given (λ own.
          Triple-bind (λ _ t. (t ≡ s) × (is_hex_text 64 expected ≡ true))
            (Triple-throw_if (not (is_hex_text 64 expected)) bad_request same
              (λ h t e. (e, true_of_not h)))
            (λ _. Triple-given (λ formed.
              Triple-bind (λ n t. (t ≡ s) × (size_of (env.storage.head key) ≡ ok n))
                (Triple-lift (size_of (env.storage.head key)) same (λ n h t e. (e, h)))
                (λ n. Triple-given (λ size.
                  Triple-bind (λ _ t. (t ≡ s) × (n ≤ max_upload_bytes))
                    (Triple-throw_if (ltb max_upload_bytes n) bad_request same
                      (λ h t e. (e, small_enough n h)))
                    (λ _. Triple-given (λ small.
                      Triple-bind (λ hash t. (t ≡ s) × (env.storage.digest key ≡ some hash))
                        (Triple-or_throw (env.storage.digest key) failure same
                          (λ hash h t e. (e, h)))
                        (λ hash. Triple-given (
                          confirm_hash-IsVerified now user key expected hash s n own formed size
                            small))))))))))

  confirm_hash-passes :
      (now : ℕ) (user key expected hash : String) (s : KycState env)
      → is_lower_of hash expected ≡ true
      → (confirm_hash env now user key expected hash s).0
        ≡ ok (record { document_ref = document_ref_of key hash; verified_at = now })
  unfolding confirm_hash confirm_matching write_audit_log ◌>>=◌
  confirm_hash-passes now user key expected hash s h = rw h refl

  confirm_upload-passes :
      (now : ℕ) (user key expected hash : String) (s : KycState env)
      → HasPassed user key expected hash
      → (confirm_upload env now user key expected s).0
        ≡ ok (record { document_ref = document_ref_of key hash; verified_at = now })
  unfolding confirm_upload ◌>>=◌
  confirm_upload-passes now user key expected hash s p =
      rw (p.of_user, p.is_sha256, p.has_size, not_above p.bytes p.small, p.is_digest)
        (confirm_hash-passes now user key expected hash s p.is_expected)

  -- No row has changed, and there was a reason for it.
  pub record IsRefused (user key expected : String) (before after : KycState env) : Type 0 where
    pub same : SameRecords before after
    pub not_passed : (hash : String) → ¬ (HasPassed user key expected hash)

  ok≢err : {A : Type 0} {a : A} {e : Error} → ¬ (◌≡◌ {A = Result A} (ok a) (err e))
  ok≢err h = absurd (cc h)

  Ends-IsRefused :
      (now : ℕ) (user key expected : String) (s t : KycState env) (r : Result ConfirmUploadResult)
      → (confirm_upload env now user key expected s).0 ≡ r
      → Ends (IsVerified now user key expected s) (SameRecords s) r t
      → Ends (IsVerified now user key expected s) (IsRefused user key expected s) r t
  Ends-IsRefused now user key expected s t (ok a) h e = e
  Ends-IsRefused now user key expected s t (err x) h e = record {
    same = e;
    not_passed = λ hash p. ok≢err (sym (confirm_upload-passes now user key expected hash s p) ∙ h);
  }

  -- A document is confirmed where it lies under the user's own prefix, has a size within the bound, and
  -- its digest is the 64 hex digits that the user expects, in lower case, and in no other case. Then
  -- the reference that is returned names the key and the digest, the user's row holds it with the status
  -- pending and is otherwise as it was (or the default one), and no other row changes. Where the
  -- confirmation fails no row changes at all.
  pub confirm_upload-IsVerified :
      (now : ℕ) (user key expected : String) (s : KycState env)
      → Ends
          (IsVerified now user key expected s)
          (IsRefused user key expected s)
          (confirm_upload env now user key expected s).0
          (confirm_upload env now user key expected s).1
  confirm_upload-IsVerified now user key expected s =
      Ends-IsRefused now user key expected s _ _ refl
        ((confirm_upload-Triple now user key expected s).run s refl)
