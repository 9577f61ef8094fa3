-- ===== src/Transaction/Status/Held.antt =====
-- `updateRiskScore` of transaction.service.ts, met with the worker.
use afro_pay_stellar.Prelude.{
  String, ◌≡◌, refl, sym, subst, Bool, true, some, if◌then◌else◌, ok, ◌>>=◌, ◌&&◌,
}
use afro_pay_stellar.Lock.{World}
use afro_pay_stellar.Transaction.{
  TxStatus, pending, retrying, success, failed, pending_review, Tx, TransactionJobData,
}
use afro_pay_stellar.Transaction.Processor.{
  ProcessorServices, ProcessorState, Surroundings, is_terminal, handle_send_transaction,
}
use afro_pay_stellar.Transaction.Processor.Guards.{IsTxTable}
use afro_pay_stellar.Transaction.Processor.Terminal.{handle_send_transaction-terminal}
use afro_pay_stellar.Transaction.Status.{StatusState, is_open, scored, update, update_risk_score}

flagged-terminal : (s : TxStatus) → is_terminal (if is_open s then pending_review else s) ≡ true
flagged-terminal pending = refl
flagged-terminal retrying = refl
flagged-terminal success = refl
flagged-terminal failed = refl
flagged-terminal pending_review = refl

module _ (env : ProcessorServices) (lawful : IsTxTable env.table) where
  update_risk_score-stored :
      (id : String) (score : env.Score) (flag : Bool) (row : Tx env.Score)
      (s : StatusState env.table)
      → env.table.find id s.rows ≡ some row
      → update_risk_score env.table id score flag s ≡ (
        ok (scored env.table score flag (flag && is_open row.status) row),
        record s {
          rows =
              env.table.write id
                (scored env.table score flag (flag && is_open row.status) row)
                s.rows;
        },
      )
  unfolding update_risk_score update ◌>>=◌
  update_risk_score-stored id score flag row s found = rw found (rw found refl)

  -- When a stored transaction is flagged, whatever its status was, the row that is returned and
  -- stored carries the score and the flag and has a terminal status, and from then on the worker
  -- returns this row for every job for it and changes nothing.
  pub update_risk_score-held :
      (id : String) (score : env.Score) (row : Tx env.Score) (s : StatusState env.table)
      → env.table.find id s.rows ≡ some row
      → (y : Tx env.Score) × ((update_risk_score env.table id score true s).0 ≡ ok y)
        × (y.risk_score ≡ some score)
        × (y.flagged ≡ true)
        × (is_terminal y.status ≡ true)
        × ((out : Surroundings env.Score) (job : TransactionJobData)
              (w : World (ProcessorState env))
            → job.tx_id ≡ id
            → w.app.rows ≡ (update_risk_score env.table id score true s).1.rows
            → handle_send_transaction env out job w ≡ (ok y, w))
  update_risk_score-held id score row s found =
      let y = scored env.table score true (is_open row.status) row in
      let written = lawful.find-write id row y s.rows found (lawful.find_id id row s.rows found) in
      rw (update_risk_score-stored id score true row s found) (
        y,
        refl,
        refl,
        refl,
        flagged-terminal row.status,
        λ out job w same rows.
            handle_send_transaction-terminal env id out job y w same
              (subst (λ t. env.table.find id t ≡ some y) (sym rows) written)
              (flagged-terminal row.status),
      )
