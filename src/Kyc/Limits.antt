-- ===== src/Kyc/Limits.antt =====
-- The daily limit in apps/api/src/kyc/kyc.service.ts, and which steps move it. What the user has spent
-- today is an argument; so are the operations on amounts, which are JavaScript numbers.
use afro_pay_stellar.Prelude.{
  ℕ, String, ◌≡◌, refl, sym, ap, ◌∙◌, Bool, true, false, Bool-cases, Option, none, some, List, [],
  ◌∷◌, find-write_here, find-write_there, str_eq, str_eq_iff, if◌then◌else◌, inl, inr, Error,
  bad_request, forbidden, failure, Result, ok, err, Exec, gets, lift, throw_if, ◌>>=◌, Triple,
  Triple-bind, Triple-throw_if, Triple-or_throw, Triple-modify, Triple-pure, Triple-post,
  Triple-errors, Triple-state,
}
use afro_pay_stellar.Rpc.{Numbers}
use afro_pay_stellar.Kyc.{KycStatus, KycTier, none_tier, basic, full, KycRecord, or_blank, upsert}
use afro_pay_stellar.Kyc.Upload.{
  KycServices, KycState, KycSubmit, is_bad_type, write_audit_log, generate_upload_url,
  confirm_upload, set_type, submitted, submit_kyc, set_status, set_tier, set_reason, reviewed,
  update_kyc_record,
}
use afro_pay_stellar.Kyc.Confirmed.{confirm_upload-Triple, IsConfirmed}

abbrev pub get_limit_for_tier : KycTier → ℕ
get_limit_for_tier none_tier = 100
get_limit_for_tier basic = 5000
get_limit_for_tier full = 50000

-- `record?.tier || 'NONE'`
abbrev pub tier_or_none : Option KycRecord → KycTier
tier_or_none none = none_tier
tier_or_none (some r) = r.tier

throw_if-result :
    {S : Type 0} (b : Bool) (e : Error) (s : S) → (throw_if b e s).0 ≡ (if b then err e else ok tt)
unfolding throw_if
throw_if-result true e s = refl
throw_if-result false e s = refl

module _ (env : KycServices) where
  unfoldable pub assert_within_daily_limit :
      {N : Type 0} → Numbers N → (String → Result N) → String → N → Exec (KycState env) (Unit {0})
  assert_within_daily_limit numbers get_daily_spent user amount = do
    spent ← lift (get_daily_spent user)
    found ← gets (λ s. env.table.find user s.records)
    throw_if
        (numbers.gt (numbers.add spent amount)
          (numbers.of_ℕ (get_limit_for_tier (tier_or_none found))))
        forbidden

  -- A request of a user, or the decision of a reviewer.
  pub data KycStep : Type 0 where
    generate : ℕ → String → String → String → KycStep
    confirms : ℕ → String → String → String → KycStep
    submits : ℕ → String → KycSubmit → KycStep
    review : ℕ → String → Option KycStatus → Option KycTier → Option String → KycStep

  abbrev pub after_step : KycStep → KycState env → KycState env
  after_step (generate now object_id user content_type) s =
      (generate_upload_url env now object_id user content_type s).1
  after_step (confirms now user key expected) s = (confirm_upload env now user key expected s).1
  after_step (submits now user form) s = (submit_kyc env now user form s).1
  after_step (review now user status tier reason) s =
      (update_kyc_record env now user status tier reason s).1

  abbrev pub after_steps : List KycStep → KycState env → KycState env
  after_steps [] s = s
  after_steps (x ∷ xs) s = after_steps xs (after_step x s)

  abbrev pub given_tier : Bool → Option KycTier → KycTier → KycTier
  given_tier false o old = old
  given_tier true none old = old
  given_tier true (some t) old = t

  -- The tier that the reviewers gave last.
  abbrev pub decided : String → KycStep → KycTier → KycTier
  decided user (generate now object_id u content_type) old = old
  decided user (confirms now u key expected) old = old
  decided user (submits now u form) old = old
  decided user (review now u status tier reason) old = given_tier (str_eq u user) tier old

  abbrev pub last_decided : String → List KycStep → KycTier → KycTier
  last_decided user [] old = old
  last_decided user (x ∷ xs) old = last_decided user xs (decided user x old)

  abbrev pub tier_of : String → KycState env → KycTier
  tier_of user s = tier_or_none (env.table.find user s.records)

  or_blank-tier : (u : String) (o : Option KycRecord) → (or_blank u o).tier ≡ tier_or_none o
  or_blank-tier u none = refl
  or_blank-tier u (some r) = refl

  upsert-tier :
      (f : KycRecord → KycRecord) (o : Option KycTier) (u user : String) (s : KycState env)
      → ((r : KycRecord) → (f r).tier ≡ given_tier true o r.tier)
      → tier_or_none (env.table.find user (upsert env.table u f s.records))
        ≡ given_tier (str_eq u user) o (tier_of user s)
  unfolding upsert
  upsert-tier f o u user s h = elim (Bool-cases (str_eq u user)) [
    | inl e ↦
        ap tier_or_none (find-write_here env.table u user _ s.records e)
        ∙ h (or_blank u (env.table.find u s.records))
        ∙ ap (given_tier true o) (or_blank-tier u (env.table.find u s.records))
        ∙ ap (λ k. given_tier true o (tier_of k s)) ((str_eq_iff u user).0 e)
        ∙ rw e refl
    | inr e ↦ ap tier_or_none (find-write_there env.table u user _ s.records e) ∙ rw e refl
  ]

  set_type-tier : (o : Option String) (r : KycRecord) → (set_type env o r).tier ≡ r.tier
  set_type-tier none r = refl
  set_type-tier (some t) r = refl

  reviewed-tier :
      (status : Option KycStatus) (tier : Option KycTier) (reason : Option String) (r : KycRecord)
      → (set_reason env reason (set_tier env tier (set_status env status r))).tier
        ≡ given_tier true tier r.tier
  reviewed-tier none none none r = refl
  reviewed-tier none none (some x) r = refl
  reviewed-tier none (some t) none r = refl
  reviewed-tier none (some t) (some x) r = refl
  reviewed-tier (some y) none none r = refl
  reviewed-tier (some y) none (some x) r = refl
  reviewed-tier (some y) (some t) none r = refl
  reviewed-tier (some y) (some t) (some x) r = refl

  kept : (b : Bool) (t : KycTier) → given_tier b none t ≡ t
  kept true t = refl
  kept false t = refl

  -- An action of a user leaves the tier of every user.
  abbrev Keeps : {A : Type 0} → Exec (KycState env) A → Type 0
  Keeps m =
      (user : String) (s : KycState env)
      → Triple (λ t. t ≡ s) m (λ _ t. tier_of user t ≡ tier_of user s)
          (λ t. tier_of user t ≡ tier_of user s)

  generate_upload_url-Keeps :
      (now : ℕ) (object_id u content_type : String)
      → Keeps (generate_upload_url env now object_id u content_type)
  unfolding generate_upload_url write_audit_log
  generate_upload_url-Keeps now object_id u content_type user s =
      let same : (t : KycState env) → t ≡ s → tier_of user t ≡ tier_of user s =
        λ t. ap (tier_of user) in
      Triple-bind (λ _ t. t ≡ s) (Triple-throw_if _ bad_request same (λ h t e. e))
        (λ _.
          Triple-bind (λ _ t. t ≡ s) (Triple-or_throw _ failure same (λ url h t e. e))
            (λ url.
              Triple-bind (λ _ t. tier_of user t ≡ tier_of user s) (Triple-modify _ same)
                (λ _. Triple-pure _ (λ t h. h))))

  IsConfirmed-tier :
      (now : ℕ) (u ref user : String) (s t : KycState env)
      → IsConfirmed env now u ref s.records t.records
      → tier_of user t ≡ tier_of user s
  IsConfirmed-tier now u ref user s t h = elim (Bool-cases (str_eq u user)) [
    | inl e ↦
        ap (λ k. tier_of k t) (sym ((str_eq_iff u user).0 e))
        ∙ ap tier_or_none h.own
        ∙ or_blank-tier u (env.table.find u s.records)
        ∙ ap (λ k. tier_of k s) ((str_eq_iff u user).0 e)
    | inr e ↦ ap tier_or_none (h.others user e)
  ]

  confirms-tier :
      (now : ℕ) (u key expected user : String) (s : KycState env)
      → tier_of user (confirm_upload env now u key expected s).1 ≡ tier_of user s
  confirms-tier now u key expected user s =
      Triple-state
        (Triple-errors (λ t h. ap (λ rows. tier_or_none (env.table.find user rows)) h)
          (Triple-post (λ result t h. IsConfirmed-tier now u result.document_ref user s t h.row)
            (confirm_upload-Triple env now u key expected s)))
        s refl

  submit_kyc-Keeps : (now : ℕ) (u : String) (form : KycSubmit) → Keeps (submit_kyc env now u form)
  unfolding submit_kyc
  submit_kyc-Keeps now u form user s =
      Triple-bind (λ _ t. t ≡ s)
        (Triple-throw_if (is_bad_type form.document_type) bad_request (λ t. ap (tier_of user))
          (λ h t e. e))
        (λ _. record {
          run = λ t e.
              upsert-tier (submitted env now form) none u user t (set_type-tier form.document_type)
              ∙ kept (str_eq u user) (tier_of user t)
              ∙ ap (tier_of user) e;
        })

  after_step-tier :
      (x : KycStep) (user : String) (s : KycState env)
      → tier_of user (after_step x s) ≡ decided user x (tier_of user s)
  unfolding update_kyc_record
  after_step-tier (generate now object_id u content_type) user s =
      Triple-state (generate_upload_url-Keeps now object_id u content_type user s) s refl
  after_step-tier (confirms now u key expected) user s = confirms-tier now u key expected user s
  after_step-tier (submits now u form) user s =
      Triple-state (submit_kyc-Keeps now u form user s) s refl
  after_step-tier (review now u status tier reason) user s =
      upsert-tier (reviewed env now status tier reason) tier u user s
        (reviewed-tier status tier reason)

  after_steps-tier :
      (xs : List KycStep) (user : String) (s : KycState env)
      → tier_of user (after_steps xs s) ≡ last_decided user xs (tier_of user s)
  after_steps-tier [] user s = refl
  after_steps-tier (x ∷ xs) user s =
      after_steps-tier xs user (after_step x s)
      ∙ ap (last_decided user xs) (after_step-tier x user s)

  -- After any sequence of requests of users and decisions of reviewers, an amount passes the daily
  -- limit of a user where, added to what the user has spent today, it is not above the limit of the
  -- tier that a reviewer gave the user last (or of the one at the start): no request of a user moves
  -- the limit, and neither does a decision about the status alone.
  pub assert_within_daily_limit_lem :
      {N : Type 0} (numbers : Numbers N) (get_daily_spent : String → Result N) (user : String)
      (amount spent : N) (xs : List KycStep) (s : KycState env)
      → get_daily_spent user ≡ ok spent
      → (assert_within_daily_limit numbers get_daily_spent user amount (after_steps xs s)).0 ≡ (
          if numbers.gt
            (numbers.add spent amount)
            (numbers.of_ℕ (get_limit_for_tier (last_decided user xs (tier_of user s))))
          then err forbidden
          else ok tt)
  unfolding assert_within_daily_limit ◌>>=◌ lift gets
  assert_within_daily_limit_lem numbers get_daily_spent user amount spent xs s h =
      rw (h, lift, gets)
        (throw_if-result
            (numbers.gt (numbers.add spent amount)
              (numbers.of_ℕ (get_limit_for_tier (tier_of user (after_steps xs s)))))
            forbidden (after_steps xs s)
          ∙ rw (after_steps-tier xs user s) refl)
