-- ===== src/Drafts/Twice.antt =====
-- Two tabs that drain the same store at once in apps/frontend/lib/syncEngine.ts.
use afro_pay_stellar.Prelude.{ℕ, String, ◌≡◌, ap, ◌∙◌, Option, List}
use afro_pay_stellar.Drafts.{OfflineTransactionDraft, Payload}
use afro_pay_stellar.Drafts.Sync.{Reply, Counts, Tab, deliver_all}
use afro_pay_stellar.Drafts.Order.{sent, post_all, deliver_all-server}

module _ {Server : Type 0} (post : Payload → Server → Reply × Server)
    (http_status : Option ℕ → String) where
  -- Two tabs that have read the same drafts before either delivers them send every one of them twice:
  -- the second tab posts also those that the first has claimed, and those that it has delivered and
  -- removed.
  pub second_tab-posts_again :
      (now now' : ℕ) (ds : List OfflineTransactionDraft) (c c' : Counts) (t : Tab Server)
      → (deliver_all post http_status now' ds c'
          (deliver_all post http_status now ds c t).1).1.server
        ≡ post_all post http_status (sent ds) (post_all post http_status (sent ds) t.server)
  second_tab-posts_again now now' ds c c' t =
      deliver_all-server post http_status now' ds c' (deliver_all post http_status now ds c t).1
      ∙ ap (post_all post http_status (sent ds)) (deliver_all-server post http_status now ds c t)
