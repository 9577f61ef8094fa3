-- ===== src/RateLimit.antt =====
-- apps/api/src/rate-limit/rate-limit.guard.ts: a window of requests for each client and kind of
-- request, kept in memory. The environment variables and the clock are arguments.
pub mod Buckets
pub mod Window
mod Tests
use Prim.Native.Char.{Char, code}
use Prim.Native.String.{[] as nil, ◌∷◌ as ◌∷ˢ◌, ◌++◌ as ◌++ˢ◌}
use afro_pay_stellar.Prelude.{
  ℕ, zero, suc, ◌+◌, ◌-◌, ◌*◌, ◌/◌, max, String, Bool, true, false, ◌&&◌, ◌||◌, Option, none, some,
  ltb, leb, if◌then◌else◌, Dict, set_key, is_digit, is_space, ◌==◌, Result, ok, err,
  too_many_requests, str_eq,
}

pub record RateLimitBucket : Type 0 where
  pub count : ℕ
  pub reset_at : ℕ

pub record RateLimitOptions : Type 0 where
  pub key_prefix : String
  pub limit : Option ℕ
  pub window_ms : Option ℕ
  pub limit_env : Option String
  pub window_ms_env : Option String

-- What the guard reads of a request.
pub record Request : Type 0 where
  pub user_id : Option String
  pub sub : Option String
  pub ip : Option String
  pub remote_address : Option String

pub record Headers : Type 0 where
  pub limit : ℕ
  pub remaining : ℕ
  pub reset : ℕ
  pub retry_after : Option ℕ

-- What a call answers: it lets the request pass or throws, and the headers that it sets.
pub record Reply : Type 0 where
  pub outcome : Result Bool
  pub headers : Option Headers

pub record RateLimitGuard : Type 0 where
  pub buckets : Dict RateLimitBucket
  pub last_cleanup_at : ℕ

abbrev pub default_limit : ℕ
default_limit = 60

abbrev pub default_window_ms : ℕ
default_window_ms = 60_000

-- The value of the digits that a text starts with, if it starts with one.
abbrev digits_value : Option ℕ → String → Option ℕ
digits_value n nil = n
digits_value n (c ∷ˢ s) =
    let more = digits_value (some (elim n [ none ↦ 0 | some k ↦ k ] * 10 + (code c - 48))) s in
    if is_digit c then more else n

-- `Number.parseInt(value, 10)` where it is positive: spaces, a sign and digits.
abbrev parse_positive : String → Option ℕ
parse_positive nil = none
parse_positive (c ∷ˢ s) =
    let rest = parse_positive s in
    if is_space c
    then rest
    else if code c == 43
    then digits_value none s
    else digits_value none (c ∷ˢ s)

abbrev positive_or : ℕ → Option ℕ → ℕ
positive_or fallback none = fallback
positive_or fallback (some zero) = fallback
positive_or fallback (some (suc n)) = suc n

pub read_positive_int : Option String → ℕ → ℕ
read_positive_int none fallback = fallback
read_positive_int (some value) fallback = positive_or fallback (parse_positive value)

-- `process.env`
abbrev pub Environment : Type 0
Environment = String → Option String

abbrev or_else : ℕ → Option ℕ → ℕ
or_else n none = n
or_else n (some k) = k

abbrev or_empty : Option String → String
or_empty none = ""
or_empty (some s) = s

pub limit_of : Environment → RateLimitOptions → ℕ
limit_of env o =
    read_positive_int (env (or_empty o.limit_env))
      (read_positive_int (env "RATE_LIMIT_MAX") (or_else default_limit o.limit))

pub window_of : Environment → RateLimitOptions → ℕ
window_of env o =
    read_positive_int (env (or_empty o.window_ms_env))
      (read_positive_int (env "RATE_LIMIT_WINDOW_MS") (or_else default_window_ms o.window_ms))

-- `a ?? b`
abbrev or_option : Option String → Option String → Option String
or_option none b = b
or_option (some a) b = some a

abbrev by_ip : Request → String
by_ip r = "ip:" ++ˢ (elim (or_option r.ip r.remote_address) [ none ↦ "unknown" | some a ↦ a ])

-- A user's identifier that is empty counts as none.
pub client_key : Request → String
client_key r = elim (or_option r.user_id r.sub) [
  | none ↦ by_ip r
  | some user ↦ if str_eq user "" then by_ip r else "user:" ++ˢ user
]

abbrev pub bucket_key : RateLimitOptions → Request → String
bucket_key o r = o.key_prefix ++ˢ (":" ++ˢ client_key r)

abbrev has_reset : ℕ → RateLimitBucket → Bool
has_reset now b = leb b.reset_at now

abbrev pub keep_live : ℕ → Option RateLimitBucket → Option RateLimitBucket
keep_live now none = none
keep_live now (some b) = if has_reset now b then none else some b

pub cleanup_expired_buckets : ℕ → RateLimitGuard → RateLimitGuard
cleanup_expired_buckets now g =
    if ltb (now - g.last_cleanup_at) default_window_ms
    then g
    else record { buckets = λ k. keep_live now (g.buckets k); last_cleanup_at = now }

abbrev fresh : ℕ → ℕ → RateLimitBucket
fresh now window = record { count = 0; reset_at = now + window }

-- `!current || current.resetAt <= now ? a new bucket : current`
abbrev pub current_bucket : ℕ → ℕ → Option RateLimitBucket → RateLimitBucket
current_bucket now window none = fresh now window
current_bucket now window (some b) = if has_reset now b then fresh now window else b

abbrev pub counted : RateLimitBucket → RateLimitBucket
counted b = record b { count = b.count + 1 }

-- The answer for the bucket that has counted the request.
pub reply : ℕ → ℕ → RateLimitBucket → Reply
reply limit now b =
    let retry = max 1 ((b.reset_at - now + 999) / 1000) in
    let passes = leb b.count limit in
    record {
      outcome = if passes then ok true else err too_many_requests;
      headers = some (record {
        limit = limit;
        remaining = limit - b.count;
        reset = b.reset_at;
        retry_after = if passes then none else some retry;
      });
    }

pub can_activate :
    Environment → Option RateLimitOptions → Request → ℕ → RateLimitGuard → Reply × RateLimitGuard
can_activate env none request now g = (record { outcome = ok true; headers = none }, g)
can_activate env (some o) request now g =
    let g' = cleanup_expired_buckets now g in
    let key = bucket_key o request in
    let b = counted (current_bucket now (window_of env o) (g'.buckets key)) in
    (reply (limit_of env o) now b, record g' { buckets = set_key key (some b) g'.buckets })
