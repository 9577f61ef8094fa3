-- ===== src/Transaction/Processor/Once.antt =====
-- transaction.processor.ts: deliveries of jobs one after the other.
use afro_pay_stellar.Prelude.{
  ℕ, ◌≤◌, String, ◌≡◌, inl, inr, refl, ◌∙◌, subst, false, Option, none, some, List, [], ◌∷◌, arith,
  ◌>>=◌, Bool-cases, Triple-state, failure, All, or_throw, pure,
}
use afro_pay_stellar.Lock.{Store, World, lock_ttl_ms}
use afro_pay_stellar.Lock.Service.{with_lock-keeps}
use afro_pay_stellar.Transaction.{Tx, TransactionJobData}
use afro_pay_stellar.Transaction.Processor.{
  ProcessorServices, ProcessorState, Surroundings, is_terminal, process_transaction, lock_key,
  process_row, handle_send_transaction,
}
use afro_pay_stellar.Transaction.Processor.Guards.{
  IsTxTable, occurrences, Inv, process_transaction-Inv,
}

module _ (env : ProcessorServices) where
  -- A delivery of a job, with the leases and the clock as they are by then.
  pub record Delivery : Type 0 where
    pub out : Surroundings env.Score
    pub job : TransactionJobData
    pub locks : Store
    pub clock : ℕ

  pub deliver : Delivery → ProcessorState env → ProcessorState env
  deliver d s =
      (handle_send_transaction env d.out d.job
        (record { app = s; locks = d.locks; clock = d.clock })).1.app

  pub deliver_all : List Delivery → ProcessorState env → ProcessorState env
  deliver_all [] s = s
  deliver_all (d ∷ ds) s = deliver_all ds (deliver d s)

module _ (env : ProcessorServices) (lawful : IsTxTable env.table) (id : String) where
  process_row-Inv :
      (out : Surroundings env.Score) (job : TransactionJobData) (row : Tx env.Score)
      (w : World (ProcessorState env))
      → row.id ≡ id
      → env.table.find id w.app.rows ≡ some row
      → Inv env lawful id w.app
      → Inv env lawful id (process_row env out job row w).1.app
  unfolding pure
  process_row-Inv out job row w own stored h = elim (Bool-cases (is_terminal row.status)) [
    | inl done ↦ rw done h
    | inr live ↦ rw live (
        with_lock-keeps (Inv env lawful id) _ out.token (lock_key env row.id) lock_ttl_ms w h
          (worked live h))
  ]
    where
      worked :
          is_terminal row.status ≡ false
          → Inv env lawful id w.app
          → Inv env lawful id (process_transaction env out job.user_id row job.dto.amount w.app).1
      worked live (inl clean) =
          Triple-state
            (process_transaction-Inv env lawful id out job.user_id job.dto.amount row own) w.app
            clean
      worked live (inr settled) = cc (live, settled.1 row stored)

  deliver-Inv :
      (d : Delivery env) (s : ProcessorState env)
      → d.job.tx_id ≡ id
      → Inv env lawful id s
      → Inv env lawful id (deliver env d s)
  unfolding deliver handle_send_transaction ◌>>=◌
  deliver-Inv d s same h = loaded (env.table.find d.job.tx_id s.rows) refl
    where
      w : World (ProcessorState env)
      w = record { app = s; locks = d.locks; clock = d.clock }

      loaded :
          (o : Option (Tx env.Score))
          → env.table.find d.job.tx_id s.rows ≡ o
          → Inv env lawful id ((or_throw o failure >>= process_row env d.out d.job) w).1.app
      loaded none found = h
      loaded (some row) found =
          process_row-Inv d.out d.job row w (lawful.find_id d.job.tx_id row s.rows found ∙ same)
            (subst (λ i. env.table.find i s.rows ≡ some row) same found) h

  deliver_all-Inv :
      (ds : List (Delivery env)) (s : ProcessorState env)
      → All (λ (d : Delivery env). d.job.tx_id ≡ id) ds
      → Inv env lawful id s
      → Inv env lawful id (deliver_all env ds s)
  unfolding deliver_all
  deliver_all-Inv [] s jobs h = h
  deliver_all-Inv (d ∷ ds) s jobs h = deliver_all-Inv ds _ jobs.1 (deliver-Inv d s jobs.0 h)

  -- Jobs for one transaction that is not yet submitted, any number of them, each delivered when
  -- the one before has ended, on a database that answers every call: whatever the fraud service and
  -- the chain answer, and whatever becomes of the leases, the transaction is submitted at most once.
  pub deliver_all-once :
      (ds : List (Delivery env)) (s : ProcessorState env)
      → All (λ (d : Delivery env). d.job.tx_id ≡ id) ds
      → occurrences id s.submitted ≡ 0
      → occurrences id (deliver_all env ds s).submitted ≤ 1
  deliver_all-once ds s jobs fresh =
      once (deliver_all env ds s) (deliver_all-Inv ds s jobs (inl fresh))
    where
      once : (s : ProcessorState env) → Inv env lawful id s → occurrences id s.submitted ≤ 1
      once s (inl clean) = omega (arith, clean)
      once s (inr settled) = settled.0
