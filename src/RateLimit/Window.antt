-- ===== src/RateLimit/Window.antt =====
-- rate-limit.guard.ts: the requests of one window.
use afro_pay_stellar.Prelude.{
  ℕ, suc, ◌+◌, ◌≤◌, ◌<◌, min, String, ◌≡◌, inl, inr, Bool, true, false, List, [], ◌∷◌, All, arith,
  leb, str_eq, str_eq_iff, if◌then◌else◌, Bool-cases, Result, ok, err, too_many_requests, some,
  ◌&&◌,
}
use afro_pay_stellar.RateLimit.{
  RateLimitOptions, Request, RateLimitGuard, Environment, limit_of, window_of, bucket_key,
  can_activate,
}
use afro_pay_stellar.RateLimit.Buckets.{
  IsLive, IsIdle, other-IsLive, other-IsIdle, own-IsLive, own-IsIdle,
}

pub record Hit : Type 0 where
  pub request : Request
  pub now : ℕ

abbrev passes : Result Bool → Bool
passes (ok b) = b
passes (err e) = false

module _ (env : Environment) (o : RateLimitOptions) (k : String) where
  abbrev one_if : Bool → ℕ
  one_if true = 1
  one_if false = 0

  -- How many of the requests are under the key.
  abbrev pub requests : List Hit → ℕ
  requests [] = 0
  requests (h ∷ hs) = one_if (str_eq (bucket_key o h.request) k) + requests hs

  -- How many of the requests under the key pass.
  pub accepted : List Hit → RateLimitGuard → ℕ
  accepted [] g = 0
  accepted (h ∷ hs) g =
      one_if (
        str_eq (bucket_key o h.request) k
        && passes (can_activate env (some o) h.request h.now g).0.outcome)
      + accepted hs (can_activate env (some o) h.request h.now g).1

  abbrev Within : ℕ → Hit → Type 0
  Within t h = (t ≤ h.now) × (h.now < t + window_of env o)

  -- counting one more request under a limit
  passes-min :
      (c limit : ℕ)
      → one_if (passes (if leb (suc c) limit then ok true else err too_many_requests)) + min c limit
        ≡ min (suc c) limit
  passes-min c limit = ground arith

  accepted-live :
      (t c : ℕ) (hs : List Hit) (g : RateLimitGuard)
      → All (Within t) hs
      → IsLive k (t + window_of env o) c g
      → accepted hs g + min c (limit_of env o) ≡ min (c + requests hs) (limit_of env o)
  unfolding accepted
  accepted-live t c [] g within h = omega arith
  accepted-live t c (x ∷ hs) g within h = elim (Bool-cases (str_eq (bucket_key o x.request) k)) [
    | inl own ↦
        let (live, outcome) =
          own-IsLive k env o x.request x.now g (t + window_of env o) c ((str_eq_iff _ _).0 own)
            within.0.1 h in
        let rest = accepted-live t (suc c) hs _ within.1 live in
        rw own (rw outcome (omega (arith, rest, passes-min c (limit_of env o))))
    | inr other ↦
        let rest =
          accepted-live t c hs _ within.1
            (other-IsLive k env o x.request x.now g (t + window_of env o) c other within.0.1 h) in
        rw other (omega (arith, rest))
  ]

  -- When at time `t` the key has no bucket, or one whose window is over, then of the requests in the
  -- window that begins at `t`, mixed with any requests under other keys and in any order, as many
  -- pass as there are under the key, up to the limit, and no more.
  pub accepted-min :
      (t : ℕ) (hs : List Hit) (g : RateLimitGuard)
      → All (Within t) hs
      → IsIdle k t g
      → accepted hs g ≡ min (requests hs) (limit_of env o)
  unfolding accepted
  accepted-min t [] g within h = omega arith
  accepted-min t (x ∷ hs) g within h = elim (Bool-cases (str_eq (bucket_key o x.request) k)) [
    | inl own ↦
        let (live, outcome) =
          own-IsIdle k env o x.request x.now g t ((str_eq_iff _ _).0 own) within.0.0 h in
        let rest = accepted-live t 1 hs _ within.1 live in
        rw own (rw outcome (omega (arith, rest, passes-min 0 (limit_of env o))))
    | inr other ↦
        let rest =
          accepted-min t hs (can_activate env (some o) x.request x.now g).1 within.1
            (other-IsIdle k env o x.request x.now g t other h) in
        rw other (omega (arith, rest))
  ]
