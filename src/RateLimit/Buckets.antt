-- ===== src/RateLimit/Buckets.antt =====
-- rate-limit.guard.ts: what a call does to the bucket of a key, its own or another one.
use afro_pay_stellar.Prelude.{
  ℕ, suc, ◌+◌, ◌-◌, ◌≤◌, ◌<◌, String, ◌≡◌, ◌∙◌, refl, sym, ap, inl, inr, true, false, Option, none,
  some, arith, ltb, leb, str_eq, str_eq_iff, if◌then◌else◌, Bool-cases, ok, err, too_many_requests,
}
use afro_pay_stellar.RateLimit.{
  RateLimitBucket, RateLimitOptions, Request, RateLimitGuard, Environment, limit_of, window_of,
  bucket_key, keep_live, cleanup_expired_buckets, current_bucket, counted, reply, can_activate,
  default_window_ms, has_reset,
}

module _ (k : String) where
  -- A bucket that has counted `c` requests and lasts up to `until`.
  pub record IsLive (until c : ℕ) (g : RateLimitGuard) : Type 0 where
    pub bucket : RateLimitBucket
    pub kept : g.buckets k ≡ some bucket
    pub counts : bucket.count ≡ c
    pub lasts : until ≤ bucket.reset_at

  -- No bucket, or one whose window is over at `t`.
  abbrev pub IsIdle : ℕ → RateLimitGuard → Type 0
  IsIdle t g = (b : RateLimitBucket) → g.buckets k ≡ some b → b.reset_at ≤ t

  not_reset : (now : ℕ) (b : RateLimitBucket) → now < b.reset_at → has_reset now b ≡ false
  not_reset now b h = ground arith

  cleanup-IsLive :
      (now until c : ℕ) (g : RateLimitGuard)
      → now < until
      → IsLive until c g
      → IsLive until c (cleanup_expired_buckets now g)
  unfolding cleanup_expired_buckets
  cleanup-IsLive now until c g early h =
      elim (Bool-cases (ltb (now - g.last_cleanup_at) default_window_ms)) [
        | inl soon ↦ rw soon h
        | inr due ↦ rw due (record {
          bucket = h.bucket;
          kept = rw h.kept (rw (not_reset now h.bucket (omega (arith, early, h.lasts))) refl);
          counts = h.counts;
          lasts = h.lasts;
        })
      ]

  keep_live-some :
      (now : ℕ) (x : Option RateLimitBucket) (b : RateLimitBucket)
      → keep_live now x ≡ some b
      → x ≡ some b
  keep_live-some now none b e = e
  keep_live-some now (some y) b e = elim (Bool-cases (has_reset now y)) [
    | inl over ↦ cc (rw over at e)
    | inr live ↦ (rw live at e)
  ]

  cleanup-IsIdle :
      (now t : ℕ) (g : RateLimitGuard) → IsIdle t g → IsIdle t (cleanup_expired_buckets now g)
  unfolding cleanup_expired_buckets
  cleanup-IsIdle now t g h = elim (Bool-cases (ltb (now - g.last_cleanup_at) default_window_ms)) [
    | inl soon ↦ rw soon h
    | inr due ↦ rw due (λ b e. h b (keep_live-some now (g.buckets k) b e))
  ]

  current_bucket-idle :
      (now window t : ℕ) (x : Option RateLimitBucket)
      → ((b : RateLimitBucket) → x ≡ some b → b.reset_at ≤ t)
      → t ≤ now
      → current_bucket now window x ≡ record { count = 0; reset_at = now + window }
  current_bucket-idle now window t none h late = refl
  current_bucket-idle now window t (some b) h late =
      let over : has_reset now b ≡ true = reset_over b (h b refl) in rw over refl
    where
      reset_over : (b : RateLimitBucket) → b.reset_at ≤ t → has_reset now b ≡ true
      reset_over b e = ground arith

  current_bucket-live :
      (now window : ℕ) (x : Option RateLimitBucket) (b : RateLimitBucket)
      → x ≡ some b
      → now < b.reset_at
      → current_bucket now window x ≡ b
  current_bucket-live now window none b e h = cc e
  current_bucket-live now window (some y) b e h =
      let same : y ≡ b = cc e in rw same (rw (not_reset now b h) refl)

  module _ (env : Environment) (o : RateLimitOptions) (request : Request) (now : ℕ)
      (g : RateLimitGuard) where
    -- A request under another key.
    pub other-IsLive :
        (until c : ℕ)
        → str_eq (bucket_key o request) k ≡ false
        → now < until
        → IsLive until c g
        → IsLive until c (can_activate env (some o) request now g).1
    unfolding can_activate
    other-IsLive until c other early h =
        let kept = cleanup-IsLive now until c g early h in
        record {
          bucket = kept.bucket;
          kept = rw other kept.kept;
          counts = kept.counts;
          lasts = kept.lasts;
        }

    pub other-IsIdle :
        (t : ℕ)
        → str_eq (bucket_key o request) k ≡ false
        → IsIdle t g
        → IsIdle t (can_activate env (some o) request now g).1
    unfolding can_activate
    other-IsIdle t other h b e = cleanup-IsIdle now t g h b (rw other at e)

    -- A request under this key, in a live bucket or in a new one.
    pub own-IsLive :
        (until c : ℕ)
        → bucket_key o request ≡ k
        → now < until
        → IsLive until c g
        → IsLive until (suc c) (can_activate env (some o) request now g).1
          × ((can_activate env (some o) request now g).0.outcome
              ≡ (if leb (suc c) (limit_of env o) then ok true else err too_many_requests))
    unfolding can_activate reply
    own-IsLive until c own early h =
        let kept = cleanup-IsLive now until c g early h in
        let current : RateLimitBucket =
          current_bucket now (window_of env o)
            ((cleanup_expired_buckets now g).buckets (bucket_key o request)) in
        let same : current ≡ kept.bucket =
          current_bucket-live now (window_of env o) _ kept.bucket
            (ap (cleanup_expired_buckets now g).buckets own ∙ kept.kept)
            (omega (arith, early, kept.lasts)) in
        let count : current.count + 1 ≡ suc c =
          omega (arith, ap (λ (b : RateLimitBucket). b.count) same, kept.counts) in
        let lasts : until ≤ current.reset_at =
          omega (arith, ap (λ (b : RateLimitBucket). b.reset_at) same, kept.lasts) in
        (
          record {
            bucket = counted current;
            kept = rw ((str_eq_iff _ _).1 own) refl;
            counts = count;
            lasts = lasts;
          },
          ap (λ n. if leb n (limit_of env o) then ok true else err too_many_requests) count,
        )

    pub own-IsIdle :
        (t : ℕ)
        → bucket_key o request ≡ k
        → t ≤ now
        → IsIdle t g
        → IsLive (t + window_of env o) 1 (can_activate env (some o) request now g).1
          × ((can_activate env (some o) request now g).0.outcome
              ≡ (if leb 1 (limit_of env o) then ok true else err too_many_requests))
    unfolding can_activate reply
    own-IsIdle t own late h =
        let current : RateLimitBucket =
          current_bucket now (window_of env o)
            ((cleanup_expired_buckets now g).buckets (bucket_key o request)) in
        let same : current ≡ record { count = 0; reset_at = now + window_of env o } =
          current_bucket-idle now (window_of env o) t _
            (λ b e.
              cleanup-IsIdle now t g h b (sym (ap (cleanup_expired_buckets now g).buckets own) ∙ e))
            late in
        let count : current.count + 1 ≡ 1 =
          omega (arith, ap (λ (b : RateLimitBucket). b.count) same) in
        let lasts : t + window_of env o ≤ current.reset_at =
          omega (arith, ap (λ (b : RateLimitBucket). b.reset_at) same, late) in
        (
          record {
            bucket = counted current;
            kept = rw ((str_eq_iff _ _).1 own) refl;
            counts = count;
            lasts = lasts;
          },
          ap (λ n. if leb n (limit_of env o) then ok true else err too_many_requests) count,
        )
