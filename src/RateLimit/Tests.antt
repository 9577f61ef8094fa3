-- ===== src/RateLimit/Tests.antt =====
-- The guard at concrete requests.
use afro_pay_stellar.Prelude.{min, ◌≡◌, refl, none, some, List, [], ◌∷◌, arith}
use afro_pay_stellar.RateLimit.{
  RateLimitOptions, Request, RateLimitGuard, Environment, read_positive_int, limit_of, window_of,
}
use afro_pay_stellar.RateLimit.Window.{Hit, requests, accepted, accepted-min}

abbrev options : RateLimitOptions
options = record {
  key_prefix = "send";
  limit = some 2;
  window_ms = none;
  limit_env = some "SEND_MAX";
  window_ms_env = none;
}

abbrev no_variables : Environment
no_variables name = none

abbrev ann : Request
ann = record { user_id = some "ann"; sub = none; ip = some "10.0.0.1"; remote_address = none }

abbrev guest : Request
guest = record { user_id = none; sub = none; ip = some "10.0.0.1"; remote_address = none }

abbrev empty : RateLimitGuard
empty = record { buckets = λ k. none; last_cleanup_at = 0 }

abbrev hits : List Hit
hits =
    record { request = ann; now = 100_000 }
    ∷ record { request = guest; now = 100_001 }
    ∷ record { request = ann; now = 100_002 }
    ∷ record { request = ann; now = 159_999 }
    ∷ []

accepted-min_example :
    accepted no_variables options "send:user:ann" hits empty
    ≡ min (requests no_variables options "send:user:ann" hits) (limit_of no_variables options)
unfolding window_of read_positive_int
accepted-min_example =
    accepted-min no_variables options "send:user:ann" 100_000 hits empty
      (
        (omega arith, omega arith),
        (
          (omega arith, omega arith),
          ((omega arith, omega arith), ((omega arith, omega arith), tt)),
        ),
      )
      (λ b e. cc e)

limit_tests :
    (read_positive_int (some " +12x") 60 ≡ 12)
    × (read_positive_int (some "-5") 60 ≡ 60)
    × (read_positive_int (some "0") 60 ≡ 60)
unfolding read_positive_int
limit_tests = (refl, refl, refl)
