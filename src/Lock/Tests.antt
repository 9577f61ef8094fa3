-- ===== src/Lock/Tests.antt =====
-- The theorems at concrete leases.
use afro_pay_stellar.Prelude.{
  ℕ, String, ◌≡◌, ◌≢◌, refl, ap, true, false, none, some, [], ◌∷◌, arith, str_eq, set_key,
  if◌then◌else◌, lock_not_acquired, Result, ok, err,
}
use afro_pay_stellar.Lock.{Lease, is_live, is_owned, acquire, World, RedisLock, with_lock}
use afro_pay_stellar.Lock.Exclusion.{
  acquiring, releasing, waiting, Timed, run, run_all, run_all-held,
}
use afro_pay_stellar.Lock.Service.{mine, entered, with_lock_cases}

abbrev lease : Lease
lease = record { token = "t1"; expires_at = 10_000 }

abbrev held : Timed
held = record { clock = 0; store = λ k. if str_eq k "escrow" then some lease else none }

t2-ne-t1 : ◌≢◌ {A = String} "t2" "t1"
t2-ne-t1 e = cc (ap (λ s. str_eq s "t1") e)

run_all-held_example :
    ((run_all (acquiring "escrow" "t2" 5 ∷ waiting 9_999 ∷ releasing "escrow" "t2" ∷ []) held).store
        "escrow"
      ≡ some lease)
    × ((token : String) (ttl : ℕ)
        → acquire
            (run_all
              (acquiring "escrow" "t2" 5 ∷ waiting 9_999 ∷ releasing "escrow" "t2" ∷ [])
              held).clock
            "escrow"
            token
            ttl
            (run_all
              (acquiring "escrow" "t2" 5 ∷ waiting 9_999 ∷ releasing "escrow" "t2" ∷ [])
              held).store
          ≡ (
            false,
            (run_all
                (acquiring "escrow" "t2" 5 ∷ waiting 9_999 ∷ releasing "escrow" "t2" ∷ [])
                held).store,
          ))
unfolding run_all run
run_all-held_example =
    run_all-held (acquiring "escrow" "t2" 5 ∷ waiting 9_999 ∷ releasing "escrow" "t2" ∷ []) held
      "escrow" lease refl (t2-ne-t1, (tt, (t2-ne-t1, tt))) (omega arith)

abbrev world : World ℕ
world = record { app = 0; locks = λ k. none; clock = 5 }

-- Work that counts and leaves the lock alone.
abbrev count : RedisLock → World ℕ → (Result ℕ × RedisLock) × World ℕ
count lock w = ((ok 7, lock), record w { app = 1 })

with_lock_cases_example :
    (is_live (world.locks "k") world.clock ≡ true
      → with_lock "t1" "k" 10 count world ≡ (err lock_not_acquired, world))
    × (is_live (world.locks "k") world.clock ≡ false
        → is_owned ((entered "t1" "k" 10 world).locks "k") "t1" ≡ true
        → with_lock "t1" "k" 10 count world ≡ (
          ok 7,
          record (count (mine "t1" "k") (entered "t1" "k" 10 world)).1 {
            locks = set_key "k" none (entered "t1" "k" 10 world).locks;
          },
        ))
    × (is_live (world.locks "k") world.clock ≡ false
        → is_owned ((entered "t1" "k" 10 world).locks "k") "t1" ≡ false
        → with_lock "t1" "k" 10 count world
          ≡ (ok 7, (count (mine "t1" "k") (entered "t1" "k" 10 world)).1))
with_lock_cases_example = with_lock_cases count "t1" "k" 10 world refl refl
