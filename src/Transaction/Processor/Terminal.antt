-- ===== src/Transaction/Processor/Terminal.antt =====
-- transaction.processor.ts: a delivery for a transaction that has reached its end.
use afro_pay_stellar.Prelude.{String, ◌≡◌, refl, true, some, ok, ◌>>=◌}
use afro_pay_stellar.Lock.{World}
use afro_pay_stellar.Transaction.{Tx, TransactionJobData}
use afro_pay_stellar.Transaction.Processor.{
  ProcessorServices, ProcessorState, Surroundings, is_terminal, handle_send_transaction,
}

module _ (env : ProcessorServices) (id : String) where
  -- A row in a terminal status is returned as it is.
  pub handle_send_transaction-terminal :
      (out : Surroundings env.Score) (job : TransactionJobData) (y : Tx env.Score)
      (w : World (ProcessorState env))
      → job.tx_id ≡ id
      → env.table.find id w.app.rows ≡ some y
      → is_terminal y.status ≡ true
      → handle_send_transaction env out job w ≡ (ok y, w)
  unfolding handle_send_transaction ◌>>=◌
  handle_send_transaction-terminal out job y w same found done = rw (same, found) (rw done refl)
