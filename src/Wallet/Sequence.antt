-- ===== src/Wallet/Sequence.antt =====
-- Any sequence of the calls of apps/api/src/wallet/wallet.service.ts that change wallets.
use afro_pay_stellar.Prelude.{
  ◌≤◌, min, String, ◌≡◌, refl, true, Option, List, [], ◌∷◌, arith, Option-cases, inl, inr, ok,
  ◌>>=◌, Triple-state,
}
use afro_pay_stellar.Wallet.{Wallet, WalletTable, IsWalletTable, is_of, is_default_of, find_first}
use afro_pay_stellar.Wallet.Service.{
  create_wallet, set_default_wallet, update_wallet_alias, delete_wallet, import_wallet,
  get_default_wallet,
}
use afro_pay_stellar.Wallet.Counting.{count, find_first-none, find_first-passes}
use afro_pay_stellar.Wallet.Defaults.{IsOrderly}
use afro_pay_stellar.Wallet.Kept.{
  create_wallet-Keeps, set_default-Keeps, update_wallet_alias-Keeps, import_wallet-Keeps,
}
use afro_pay_stellar.Wallet.Deleting.{delete_wallet-Keeps}

pub data Op : Type 0 where
  creating : (network : Option String) (user public_key : String) (alias : Option String) → Op
  choosing : (id user : String) → Op
  naming : (id user : String) (alias : Option String) → Op
  deleting : (id user : String) → Op
  importing :
      (network : Option String) (user : String) (public_key : Option String) (secret : String)
      (alias : Option String)
      → Op

module _ (table : WalletTable) where
  unfoldable pub run : Op → table.Rows → table.Rows
  run (creating network user key alias) t = (create_wallet table network user key alias t).1
  run (choosing id user) t = (set_default_wallet table id user t).1
  run (naming id user alias) t = (update_wallet_alias table id user alias t).1
  run (deleting id user) t = (delete_wallet table id user t).1
  run (importing network user key secret alias) t =
      (import_wallet table network user key secret alias t).1

  unfoldable pub run_all : List Op → table.Rows → table.Rows
  run_all [] t = t
  run_all (op ∷ ops) t = run_all ops (run op t)

  module _ (lawful : IsWalletTable table) where
    run-IsOrderly :
        (op : Op) (t : table.Rows) → IsOrderly (table.all t) → IsOrderly (table.all (run op t))
    unfolding run
    run-IsOrderly (creating network user key alias) t h =
        Triple-state (create_wallet-Keeps table lawful network user key alias) t h
    run-IsOrderly (choosing id user) t h = Triple-state (set_default-Keeps table lawful id user) t h
    run-IsOrderly (naming id user alias) t h =
        Triple-state (update_wallet_alias-Keeps table lawful id user alias) t h
    run-IsOrderly (deleting id user) t h =
        Triple-state (delete_wallet-Keeps table lawful id user) t h
    run-IsOrderly (importing network user key secret alias) t h =
        Triple-state (import_wallet-Keeps table lawful network user key secret alias) t h

    run_all-keeps_order :
        (ops : List Op) (t : table.Rows)
        → IsOrderly (table.all t)
        → IsOrderly (table.all (run_all ops t))
    unfolding run_all
    run_all-keeps_order [] t h = h
    run_all-keeps_order (op ∷ ops) t h = run_all-keeps_order ops (run op t) (run-IsOrderly op t h)

    -- From a table without wallets, after any sequence of calls, whether they succeed or throw, every
    -- user has at most five wallets, and exactly one of them is the default when there are any. The
    -- calls are creations, imports, choices of the default, new aliases and deletions; the rules of
    -- the table are those of IsWalletTable.
    pub run_all-IsOrderly :
        (ops : List Op) (t : table.Rows) (user : String)
        → table.all t ≡ []
        → (count (is_of user) (table.all (run_all ops t)) ≤ 5)
          × (count (is_default_of user) (table.all (run_all ops t))
              ≡ min 1 (count (is_of user) (table.all (run_all ops t))))
    run_all-IsOrderly ops t user empty =
        (run_all-keeps_order ops t (rw empty (tt, λ u. (omega arith, omega arith)))).1 user

    default-found :
        (t : table.Rows) (user : String)
        → IsOrderly (table.all t)
        → 1 ≤ count (is_of user) (table.all t)
        → (w : Wallet) × (get_default_wallet table user t ≡ (ok w, t))
          × (is_default_of user w ≡ true)
    unfolding get_default_wallet ◌>>=◌
    default-found t user h some_owned =
        elim (Option-cases (find_first (is_default_of user) (table.all t))) [
          | inl missing ↦ absurd (
              omega (
                arith,
                find_first-none (is_default_of user) (table.all t) missing,
                (h.1 user).1,
                some_owned,
              ))
          | inr (w, found) ↦ (
            w,
            rw (found, get_default_wallet) refl,
            find_first-passes (is_default_of user) (table.all t) w found,
          )
        ]

    -- So the default wallet of a user with a wallet is always found.
    pub get_default_wallet-total :
        (ops : List Op) (t : table.Rows) (user : String)
        → table.all t ≡ []
        → 1 ≤ count (is_of user) (table.all (run_all ops t))
        → (w : Wallet) × (get_default_wallet table user (run_all ops t) ≡ (ok w, run_all ops t))
          × (is_default_of user w ≡ true)
    get_default_wallet-total ops t user empty some_owned =
        default-found (run_all ops t) user
          (run_all-keeps_order ops t (rw empty (tt, λ u. (omega arith, omega arith)))) some_owned
