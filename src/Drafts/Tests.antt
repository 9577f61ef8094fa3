-- ===== src/Drafts/Tests.antt =====
-- The theorems on two drafts and a server that keeps what it accepts.
use mathlib.Core.List.{Perm}
use afro_pay_stellar.Prelude.{
  ℕ, String, ◌≡◌, refl, true, false, arith, Option, none, some, List, [], ◌∷◌, str_eq,
  if◌then◌else◌, All, filter, ◌⊎◌, inl, inr,
}
use afro_pay_stellar.Drafts.{OfflineTransactionDraft, Payload, pending}
use afro_pay_stellar.Drafts.Sync.{Reply, accepted, refused, Tab, drain_queue, deliver_all}
use afro_pay_stellar.Drafts.Order.{is_due, IsByCreation, sent, post_all, drain_queue-server}
use afro_pay_stellar.Drafts.Loss.{Safe, drain_queue-Safe}
use afro_pay_stellar.Drafts.Unwritten.{
  Op, enqueuing, claiming, failing, draining, releasing, IsUntouched, run_all, run_all-AllUntouched,
}
use afro_pay_stellar.Drafts.Twice.{second_tab-posts_again}

abbrev pay : String → Payload
pay to = record {
  destination_public_key = to;
  amount = "5";
  asset_code = "USDC";
  asset_issuer = none;
  memo = none;
}

abbrev draft : ℕ → ℕ → String → OfflineTransactionDraft
draft id at to = record {
  id = id;
  payload = pay to;
  created_at = at;
  status = pending;
  lock_expires_at = none;
  last_error = none;
  attempt_count = 0;
}

-- The server refuses transfers to GB.
abbrev post : Payload → List Payload → Reply × List Payload
post p s =
    if str_eq p.destination_public_key "GB" then (refused (some 400) none, s) else (accepted, p ∷ s)

abbrev http : Option ℕ → String
http status = "HTTP"

abbrev tab : Tab (List Payload)
tab = record {
  queue = record { drafts = draft 1 20 "GA" ∷ draft 2 10 "GB" ∷ []; next_id = 3 };
  server = [];
}

accepted_one : (drain_queue post http 100 false tab).1.server ≡ pay "GA" ∷ []
unfolding drain_queue
accepted_one = refl

drain_queue-server_example :
    ((ds : List OfflineTransactionDraft) × Perm ds tab.queue.drafts
      × IsByCreation ds
      × ((drain_queue post http 100 false tab).1.server
          ≡ post_all post http (sent (filter (is_due 100) ds)) []))
    × (drain_queue post http 100 true tab ≡ (none, tab))
drain_queue-server_example = drain_queue-server post http 100 tab

-- A server that keeps every request.
abbrev take_all : Payload → List Payload → Reply × List Payload
take_all p s = (accepted, p ∷ s)

abbrev Has : Payload → List Payload → Type 0
Has p [] = ⊥
Has p (q ∷ qs) = (q ≡ p) ⊎ Has p qs

drain_queue-Safe_example :
    Safe take_all http Has
      (λ p s h. inl refl)
      (λ p r s h. inr h)
      2
      (pay "GB")
      (drain_queue take_all http 100 false tab).1
drain_queue-Safe_example =
    drain_queue-Safe take_all http Has (λ p s h. inl refl) (λ p r s h. inr h) 100 2 (pay "GB") tab
      ((λ (e : 1 ≡ 2). absurd (omega arith)), ((λ e. refl), tt)) (inr (inl (refl, refl)))

abbrev first_read : List OfflineTransactionDraft
first_read = draft 2 10 "GB" ∷ draft 1 20 "GA" ∷ []

second_tab-posts_again_example :
    (deliver_all take_all http 130 first_read
      (record { completed = 0; failed = 0 })
      (deliver_all take_all http 100 first_read
        (record { completed = 0; failed = 0 })
        tab).1).1.server
    ≡ post_all take_all http (sent first_read) (post_all take_all http (sent first_read) [])
second_tab-posts_again_example =
    second_tab-posts_again take_all http 100 130 first_read (record { completed = 0; failed = 0 })
      (record { completed = 0; failed = 0 }) tab

abbrev steps : List Op
steps =
    enqueuing 10 (pay "GB")
    ∷ claiming 11 1 60_000
    ∷ failing 1 "no"
    ∷ draining 20
    ∷ releasing 30
    ∷ []

abbrev fresh_tab : Tab (List Payload)
fresh_tab = record { queue = record { drafts = []; next_id = 1 }; server = [] }

run_all-AllUntouched_example : All IsUntouched (run_all post http steps fresh_tab).queue.drafts
run_all-AllUntouched_example = run_all-AllUntouched post http steps fresh_tab refl
