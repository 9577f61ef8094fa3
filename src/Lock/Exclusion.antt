-- ===== src/Lock/Exclusion.antt =====
-- The lease store of apps/api/src/common/lock/lock.service.ts under sequences of operations.
use afro_pay_stellar.Prelude.{
  ℕ, ◌+◌, ◌≤◌, ◌<◌, String, ◌≡◌, ◌≢◌, false, some, List, [], ◌∷◌, All, arith, str_eq_iff,
}
use afro_pay_stellar.Lock.{Lease, Store, acquire, extend, release}

pub data Op : Type 0 where
  acquiring : (key token : String) (ttl : ℕ) → Op
  extending : (key token : String) (ttl : ℕ) → Op
  releasing : (key token : String) → Op
  -- time passes
  waiting : ℕ → Op

pub record Timed : Type 0 where
  pub clock : ℕ
  pub store : Store

unfoldable pub run : Op → Timed → Timed
run (acquiring key token ttl) t = record t { store = (acquire t.clock key token ttl t.store).1 }
run (extending key token ttl) t = record t { store = (extend t.clock key token ttl t.store).1 }
run (releasing key token) t = record t { store = (release key token t.store).1 }
run (waiting n) t = record t { clock = t.clock + n }

unfoldable pub run_all : List Op → Timed → Timed
run_all [] t = t
run_all (op ∷ ops) t = run_all ops (run op t)

-- The operation is another owner's.
abbrev pub IsOther : String → Op → Type 0
IsOther me (acquiring key token ttl) = token ≢ me
IsOther me (extending key token ttl) = token ≢ me
IsOther me (releasing key token) = token ≢ me
IsOther me (waiting n) = Unit

clock-run : (op : Op) (t : Timed) → t.clock ≤ (run op t).clock
unfolding run
clock-run (acquiring key token ttl) t = omega arith
clock-run (extending key token ttl) t = omega arith
clock-run (releasing key token) t = omega arith
clock-run (waiting n) t = omega arith

clock-run_all : (ops : List Op) (t : Timed) → t.clock ≤ (run_all ops t).clock
unfolding run_all
clock-run_all [] t = omega arith
clock-run_all (op ∷ ops) t = omega (arith, clock-run op t, clock-run_all ops (run op t))

run-held :
    (op : Op) (t : Timed) (key : String) (lease : Lease)
    → t.store key ≡ some lease
    → IsOther lease.token op
    → t.clock < lease.expires_at
    → (run op t).store key ≡ some lease
unfolding run acquire extend release
run-held (acquiring k token ttl) t key lease held other live = ground (arith, str_eq_iff k key)
run-held (extending k token ttl) t key lease held other live =
    ground (arith, str_eq_iff k key, str_eq_iff lease.token token)
run-held (releasing k token) t key lease held other live =
    ground (arith, str_eq_iff k key, str_eq_iff lease.token token)
run-held (waiting n) t key lease held other live = held

-- While a lease has not expired, whatever the other owners do, in any order and number, the
-- holder's entry stays as it is, and an attempt of anyone to acquire the key is refused and changes
-- nothing.
pub run_all-held :
    (ops : List Op) (t : Timed) (key : String) (lease : Lease)
    → t.store key ≡ some lease
    → All (IsOther lease.token) ops
    → (run_all ops t).clock < lease.expires_at
    → ((run_all ops t).store key ≡ some lease)
      × ((token : String) (ttl : ℕ)
          → acquire (run_all ops t).clock key token ttl (run_all ops t).store
            ≡ (false, (run_all ops t).store))
unfolding run_all
run_all-held [] t key lease held others live =
    (held, λ token ttl. unfold acquire in rw held (ground arith))
run_all-held (op ∷ ops) t key lease held others live =
    run_all-held ops (run op t) key lease
      (run-held op t key lease held others.0
        (omega (arith, clock-run op t, clock-run_all ops (run op t))))
      others.1 live
