-- ===== src/Transaction/Processor/Tests.antt =====
-- Rows in memory, scores in percent, and the theorems at concrete deliveries.
use afro_pay_stellar.Prelude.{
  ℕ, ◌≤◌, String, ◌≡◌, ◌⊎◌, inl, inr, refl, sym, ◌∙◌, false, Option, none, some, List, [], ◌∷◌, leb,
  str_eq, str_eq_iff, if◌then◌else◌, ok, Bool-cases, ap,
}
use afro_pay_stellar.Lock.{World, RedisLock, Store}
use afro_pay_stellar.Transaction.{Tx, pending, SendDto, created, TxTable, TransactionJobData}
use afro_pay_stellar.Transaction.Amount.{assert_transaction_amount_integrity}
use afro_pay_stellar.Transaction.Amount.Tests.{same_amount}
use afro_pay_stellar.Transaction.Processor.{
  ProcessorServices, ProcessorState, FraudResponse, Surroundings, process_transaction, process_row,
}
use afro_pay_stellar.Transaction.Processor.Guards.{IsTxTable, occurrences}
use afro_pay_stellar.Transaction.Processor.Once.{Delivery, deliver_all, deliver_all-once}
use afro_pay_stellar.Transaction.Processor.Risk.{IsLow, process_transaction-IsLow}
use afro_pay_stellar.Transaction.Processor.Stale.{IsAccepted, stale_read-resubmits}

abbrev Row : Type 0
Row = Tx ℕ

abbrev pub find : String → List Row → Option Row
find id [] = none
find id (tx ∷ txs) = let rest = find id txs in if str_eq tx.id id then some tx else rest

abbrev pub write : String → Row → List Row → List Row
write id new [] = []
write id new (tx ∷ txs) =
    let rest = write id new txs in if str_eq tx.id id then new ∷ rest else tx ∷ rest

abbrev pub rows : TxTable ℕ
rows = record {
  Rows = List Row;
  find = find;
  find_key = λ user key txs. none;
  create = λ tx txs. created (tx ∷ txs);
  write = write;
}

abbrev pub services : ProcessorServices
services = record { Score = ℕ; blocks = λ n. leb 80 n; reviews = λ n. leb 50 n; table = rows }

find_id : (id : String) (row : Row) (t : List Row) → find id t ≡ some row → row.id ≡ id
find_id id row [] e = cc e
find_id id row (tx ∷ txs) e = elim (Bool-cases (str_eq tx.id id)) [
  | inl same ↦
      let it : tx ≡ row = cc (rw same at e) in
      ap (λ (x : Row). x.id) (sym it) ∙ (str_eq_iff _ _).0 same
  | inr other ↦ find_id id row txs (rw other at e)
]

find-write :
    (id : String) (old row : Row) (t : List Row)
    → find id t ≡ some old
    → row.id ≡ id
    → find id (write id row t) ≡ some row
find-write id old row [] e own = cc e
find-write id old row (tx ∷ txs) e own = elim (Bool-cases (str_eq tx.id id)) [
  | inl same ↦ rw same (rw ((str_eq_iff row.id id).1 own) refl)
  | inr other ↦ rw other (rw other (find-write id old row txs (rw other at e) own))
]

pub rows-IsTxTable : IsTxTable rows
rows-IsTxTable = record { find_id = find_id; find-write = find-write }

abbrev pub row : Row
row = record {
  id = "t1";
  user_id = "u";
  wallet_id = "w1";
  destination = "GDEST";
  amount = "10.50";
  asset_code = "XLM";
  asset_issuer = none;
  memo = none;
  idempotency_key = none;
  status = pending;
  stellar_tx_hash = none;
  risk_score = none;
  flagged = false;
}

abbrev dto : SendDto
dto = record {
  destination_public_key = "GDEST";
  amount = "010.5";
  asset_code = "XLM";
  asset_issuer = none;
  memo = none;
}

abbrev pub job : TransactionJobData
job = record { tx_id = "t1"; user_id = "u"; dto = dto }

abbrev pub quiet : RedisLock → Store → ℕ → RedisLock × Store × ℕ
quiet lock locks clock = (lock, locks, clock)

abbrev pub response : FraudResponse ℕ
response = record { risk_score = 20; flagged = false }

abbrev accepting : Surroundings ℕ
accepting = record { fraud = ok response; on_chain = ok "0xabc"; token = "k1"; beside = quiet }

abbrev pub start : ProcessorState services
start = record { rows = row ∷ []; audit = []; submitted = [] }

abbrev pub world : World (ProcessorState services)
world = record { app = start; locks = λ k. none; clock = 0 }

pub checked : assert_transaction_amount_integrity job.dto.amount row.amount ≡ ok tt
checked = same_amount

abbrev again : Delivery services
again = record { out = accepting; job = job; locks = λ k. none; clock = 9 }

deliver_all-once_example :
    occurrences "t1" (deliver_all services (again ∷ again ∷ []) start).submitted ≤ 1
deliver_all-once_example =
    deliver_all-once services rows-IsTxTable "t1" (again ∷ again ∷ []) start (refl, (refl, tt)) refl

process_transaction-IsLow_example :
    ((process_transaction services accepting "u" row "010.5" start).1.submitted ≡ start.submitted)
    ⊎ ((process_transaction services accepting "u" row "010.5" start).1.submitted
        ≡ "t1" ∷ start.submitted)
      × IsLow services accepting.fraud
      × (assert_transaction_amount_integrity "010.5" row.amount ≡ ok tt)
process_transaction-IsLow_example =
    process_transaction-IsLow services accepting "u" "010.5" row start

accepted : IsAccepted services accepting
accepted = record {
  response = response;
  hash = "0xabc";
  answered = refl;
  not_blocked = refl;
  not_reviewed = refl;
  on_chain = refl;
}

stale_read-resubmits_example :
    (process_row services accepting job row
      (record (process_row services accepting job row world).1 {
        locks = λ k. none;
        clock = 5;
      })).1.app.submitted
    ≡ "t1" ∷ "t1" ∷ []
stale_read-resubmits_example =
    stale_read-resubmits services rows-IsTxTable "t1" accepting accepting job row world (λ k. none)
      5 accepted accepted refl refl checked refl refl refl
