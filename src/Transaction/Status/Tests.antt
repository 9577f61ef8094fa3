-- ===== src/Transaction/Status/Tests.antt =====
-- A pending transaction that is flagged.
use afro_pay_stellar.Prelude.{◌≡◌, refl, ℕ, true, none, some, [], ◌∷◌, ok}
use afro_pay_stellar.Lock.{World}
use afro_pay_stellar.Transaction.{Tx, TransactionJobData}
use afro_pay_stellar.Transaction.Processor.{
  ProcessorState, Surroundings, is_terminal, handle_send_transaction,
}
use afro_pay_stellar.Transaction.Processor.Tests.{services, rows, rows-IsTxTable, row}
use afro_pay_stellar.Transaction.Status.{StatusState, update_risk_score}
use afro_pay_stellar.Transaction.Status.Held.{update_risk_score-held}

abbrev state : StatusState rows
state = record { rows = row ∷ []; balances = λ k. none }

update_risk_score-held_example :
    (y : Tx ℕ) × ((update_risk_score rows "t1" 60 true state).0 ≡ ok y)
    × (y.risk_score ≡ some 60)
    × (y.flagged ≡ true)
    × (is_terminal y.status ≡ true)
    × ((out : Surroundings ℕ) (job : TransactionJobData) (w : World (ProcessorState services))
        → job.tx_id ≡ "t1"
        → w.app.rows ≡ (update_risk_score rows "t1" 60 true state).1.rows
        → handle_send_transaction services out job w ≡ (ok y, w))
update_risk_score-held_example =
    update_risk_score-held services rows-IsTxTable "t1" 60 row state refl
