-- ===== src/Lock.antt =====
-- apps/api/src/common/lock/lock.service.ts: leases with an owner's token and an expiry. The store
-- is the one in memory; the scripts of the Redis store make the same tests. The clock, the tokens
-- (random UUIDs) and the work under a lock are arguments.
pub mod Exclusion
pub mod Service
mod Tests
use afro_pay_stellar.Prelude.{
  ℕ, ◌+◌, String, Bool, true, false, not, ◌&&◌, ◌||◌, Option, none, some, List, [], ◌∷◌, ltb, leb,
  str_eq, if◌then◌else◌, Dict, set_key, Error, lock_not_acquired, lock_lost, Result, ok, err, Exec,
}

abbrev pub lock_ttl_ms : ℕ
lock_ttl_ms = 10_000

pub record Lease : Type 0 where
  pub token : String
  pub expires_at : ℕ

abbrev pub Store : Type 0
Store = Dict Lease

-- `current && current.expiresAt > now`
abbrev pub is_live : Option Lease → ℕ → Bool
is_live none now = false
is_live (some l) now = ltb now l.expires_at

-- `current && current.token === token`
abbrev pub is_owned : Option Lease → String → Bool
is_owned none token = false
is_owned (some l) token = str_eq l.token token

pub acquire : ℕ → String → String → ℕ → Store → Bool × Store
acquire now key token ttl s =
    if is_live (s key) now
    then (false, s)
    else (true, set_key key (some (record { token = token; expires_at = now + ttl })) s)

pub extend : ℕ → String → String → ℕ → Store → Bool × Store
extend now key token ttl s =
    if not (is_owned (s key) token) || not (is_live (s key) now)
    then (false, s)
    else (true, set_key key (some (record { token = token; expires_at = now + ttl })) s)

pub release : String → String → Store → Bool × Store
release key token s =
    if not (is_owned (s key) token) then (false, s) else (true, set_key key none s)

-- The store, the clock and what the application keeps.
pub record World (App : Type 0) : Type 0 where
  pub app : App
  pub locks : Store
  pub clock : ℕ

-- What the holder of a lock has: its key and token, and whether an extension has failed.
pub record RedisLock : Type 0 where
  pub key : String
  pub token : String
  pub lost : Bool

-- `finally`: an error of the release covers the outcome of the work.
abbrev pub finally : {A : Type 0} → Result A → Result (Unit {0}) → Result A
finally r (ok _) = r
finally r (err e) = err e

module _ {App : Type 0} where
  -- `RedisLockService.acquire`
  pub acquire_lock : String → String → ℕ → Exec (World App) RedisLock
  acquire_lock token key ttl w =
      let (acquired, locks) = acquire w.clock key token ttl w.locks in
      (
        if acquired
            then ok (record { key = key; token = token; lost = false })
            else err lock_not_acquired,
        record w { locks = locks },
      )

  -- One renewal by `lock.extend` or by the heartbeat: the lock with its flag, and the error.
  pub extend_lock : RedisLock → ℕ → World App → (Result (Unit {0}) × RedisLock) × World App
  extend_lock lock ttl w =
      let (renewed, locks) = extend w.clock lock.key lock.token ttl w.locks in
      (
        (if renewed then (ok tt, lock) else (err lock_lost, record lock { lost = true })),
        record w { locks = locks },
      )

  pub release_lock : RedisLock → Exec (World App) (Unit {0})
  release_lock lock w =
      let (released, locks) = release lock.key lock.token w.locks in
      (if lock.lost && not released then err lock_lost else ok tt, record w { locks = locks })

  -- `withLock`: `work` gets the lock, since the heartbeat that runs beside it may mark it lost.
  pub with_lock :
      {A : Type 0}
      → String
      → String
      → ℕ
      → (RedisLock → World App → (Result A × RedisLock) × World App)
      → Exec (World App) A
  with_lock token key ttl work w =
      let (r, w₁) = acquire_lock token key ttl w in
      elim r [
        | err e ↦ (err e, w₁)
        | ok lock ↦
            let ((result, lock'), w₂) = work lock w₁ in
            let (released, w₃) = release_lock lock' w₂ in (finally result released, w₃)
      ]
