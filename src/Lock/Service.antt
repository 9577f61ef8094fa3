-- ===== src/Lock/Service.antt =====
-- `withLock` of apps/api/src/common/lock/lock.service.ts on a held and on a free lease.
use afro_pay_stellar.Prelude.{
  ℕ, ◌+◌, String, ◌≡◌, inl, inr, true, false, none, some, arith, set_key, if◌then◌else◌,
  lock_not_acquired, lock_lost, Result, ok, err, Bool-cases,
}
use afro_pay_stellar.Lock.{
  is_live, is_owned, acquire, release, World, RedisLock, acquire_lock, release_lock, finally,
  with_lock,
}

abbrev pub mine : String → String → RedisLock
mine token key = record { key = key; token = token; lost = false }

-- The world once the lease is taken.
abbrev pub entered : {App : Type 0} → String → String → ℕ → World App → World App
entered token key ttl w = record w {
  locks = set_key key (some (record { token = token; expires_at = w.clock + ttl })) w.locks;
}

module _ {App A : Type 0} (work : RedisLock → World App → (Result A × RedisLock) × World App)
    (token key : String) (ttl : ℕ) (w : World App) where
  acquire_lock-busy :
      is_live (w.locks key) w.clock ≡ true
      → acquire_lock token key ttl w ≡ (err lock_not_acquired, w)
  unfolding acquire_lock acquire
  acquire_lock-busy h = rw h

  -- A lease that is held refuses the caller: the work does not run and nothing changes.
  pub with_lock-busy :
      is_live (w.locks key) w.clock ≡ true
      → with_lock token key ttl work w ≡ (err lock_not_acquired, w)
  unfolding with_lock
  with_lock-busy h = rw (acquire_lock-busy h, with_lock) (rw (acquire_lock-busy h))

  acquire_lock-free :
      is_live (w.locks key) w.clock ≡ false
      → acquire_lock token key ttl w ≡ (ok (mine token key), entered token key ttl w)
  unfolding acquire_lock acquire
  acquire_lock-free h = rw h

  pub with_lock-free :
      is_live (w.locks key) w.clock ≡ false
      → with_lock token key ttl work w ≡ (
        finally
            (work (mine token key) (entered token key ttl w)).0.0
            (release_lock
              (work (mine token key) (entered token key ttl w)).0.1
              (work (mine token key) (entered token key ttl w)).1).0,
        (release_lock
            (work (mine token key) (entered token key ttl w)).0.1
            (work (mine token key) (entered token key ttl w)).1).1,
      )
  unfolding with_lock
  with_lock-free h = rw (acquire_lock-free h, with_lock) (rw (acquire_lock-free h))

  -- `with_lock` on every branch. A held lease refuses the caller without running the work. A free
  -- one is taken; when the work ends, with a value or an error, while the caller still owns the
  -- lease, the lease is deleted and the outcome is the work's. When the lease has gone to another
  -- owner in the meantime, that owner's lease stays, and the outcome is the work's unless a renewal
  -- had noticed the loss: then it is the error of a lost lock. (The work keeps the lock's key and
  -- token.)
  pub with_lock_cases :
      (work (mine token key) (entered token key ttl w)).0.1.key ≡ key
      → (work (mine token key) (entered token key ttl w)).0.1.token ≡ token
      → (is_live (w.locks key) w.clock ≡ true
          → with_lock token key ttl work w ≡ (err lock_not_acquired, w))
        × (is_live (w.locks key) w.clock ≡ false
            → is_owned ((work (mine token key) (entered token key ttl w)).1.locks key) token ≡ true
            → with_lock token key ttl work w ≡ (
              (work (mine token key) (entered token key ttl w)).0.0,
              record (work (mine token key) (entered token key ttl w)).1 {
                locks = set_key key none (work (mine token key) (entered token key ttl w)).1.locks;
              },
            ))
        × (is_live (w.locks key) w.clock ≡ false
            → is_owned ((work (mine token key) (entered token key ttl w)).1.locks key) token ≡ false
            → with_lock token key ttl work w ≡ (
              (if (work (mine token key) (entered token key ttl w)).0.1.lost
                  then err lock_lost
                  else (work (mine token key) (entered token key ttl w)).0.0),
              (work (mine token key) (entered token key ttl w)).1,
            ))
  unfolding release_lock release
  with_lock_cases same_key same_token = (
    with_lock-busy,
    (λ free owned. rw (with_lock-free free) (rw (same_key, same_token) (rw owned (ground arith)))),
    (λ free gone. rw (with_lock-free free) (rw (same_key, same_token) (rw gone (ground arith)))),
  )

-- What holds before and after the work holds after `withLock`.
pub with_lock-keeps :
    {App A : Type 0} (P : App → Type 0)
    (work : RedisLock → World App → (Result A × RedisLock) × World App) (token key : String)
    (ttl : ℕ) (w : World App)
    → P w.app
    → P (work (mine token key) (entered token key ttl w)).1.app
    → P (with_lock token key ttl work w).1.app
unfolding release_lock
with_lock-keeps P work token key ttl w before after =
    elim (Bool-cases (is_live (w.locks key) w.clock)) [
      | inl busy ↦ rw (with_lock-busy work token key ttl w busy) before
      | inr free ↦ rw (with_lock-free work token key ttl w free) after
    ]

-- Under a free lease the state of the application is what the work leaves.
pub with_lock-app :
    {App A : Type 0} (P : App → Type 0)
    (work : RedisLock → World App → (Result A × RedisLock) × World App) (token key : String)
    (ttl : ℕ) (w : World App)
    → is_live (w.locks key) w.clock ≡ false
    → P (work (mine token key) (entered token key ttl w)).1.app
    → P (with_lock token key ttl work w).1.app
unfolding release_lock
with_lock-app P work token key ttl w free after =
    rw (with_lock-free work token key ttl w free) after
