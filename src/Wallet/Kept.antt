-- ===== src/Wallet/Kept.antt =====
-- Any sequence of the operations of apps/api/src/wallet/wallet.service.ts on the table of wallets.
use afro_pay_stellar.Prelude.{
  ◌<◌, String, ◌≡◌, refl, ap, ◌∙◌, false, Option, none, some, List, arith, leb, ◌==◌, str_eq,
  filter, length, Option-cases, inl, inr, failure, Exec, Triple, Triple-bind, Triple-throw_if,
  Triple-gets, Triple-or_throw, Triple-if, Triple-pure, Triple-throw, Ends-both, throw, pure,
}
use afro_pay_stellar.Wallet.{Wallet, NewWallet, WalletTable, IsWalletTable, is_of, is_long}
use afro_pay_stellar.Wallet.Service.{
  created, update_row, get_wallets, get_wallet_by_id, after_create, create_wallet,
  set_default_wallet, update_wallet_alias, import_wallet,
}
use afro_pay_stellar.Wallet.Counting.{count, length-filter}
use afro_pay_stellar.Wallet.Defaults.{IsOrderly-create}
use afro_pay_stellar.Wallet.Orderly.{
  InOrder, get_wallet_cases, set_default-InOrder, update_row-InOrder,
}

module _ (table : WalletTable) (lawful : IsWalletTable table) where
  -- An action that keeps the order, whether it returns or throws.
  abbrev pub Keeps : {A : Type 0} → Exec table.Rows A → Type 0
  Keeps m = Triple (InOrder table lawful) m (λ _. InOrder table lawful) (InOrder table lawful)

  Keeps-state :
      {A : Type 0} (m : Exec table.Rows A)
      → ((t : table.Rows) → InOrder table lawful t → InOrder table lawful (m t).1)
      → Keeps m
  Keeps-state m h = record { run = λ t k. Ends-both (InOrder table lawful) (m t).0 (m t).1 (h t k) }

  after_create-Keeps : (network : Option String) (w : Wallet) → Keeps (after_create table network w)
  unfolding after_create
  after_create-Keeps none w = Triple-throw failure (λ t h. h)
  after_create-Keeps (some n) w =
      Triple-if (str_eq n "testnet") (throw failure) (pure w) (λ e. Triple-throw failure (λ t h. h))
        (λ e. Triple-pure w (λ t h. h))

  -- Room for one more wallet, and whether it is the first.
  abbrev Room : String → List Wallet → table.Rows → Type 0
  Room user existing t = InOrder table lawful t × (existing ≡ filter (is_of user) (table.all t))

  created-InOrder :
      (n : NewWallet) (t : table.Rows)
      → InOrder table lawful t
      → count (is_of n.user_id) (table.all t) < 5
      → n.is_default ≡ (count (is_of n.user_id) (table.all t) == 0)
      → InOrder table lawful (created table (table.create n t) t).1
  created-InOrder n t h room first = elim (Option-cases (table.create n t)) [
    | inl refused ↦ rw refused h
    | inr ((w, t'), made) ↦
        let law = lawful.all-create n t t' w made in
        rw made (
          rw law.0
            (IsOrderly-create (table.all t) w h law.3 (rw law.1 room) (law.2 ∙ rw law.1 first)))
  ]

  created_row-InOrder :
      (existing : List Wallet) (user key : String) (alias : Option String) (t : table.Rows)
      → Room user existing t
      → leb 5 (length existing) ≡ false
      → InOrder table lawful
          (created table
            (table.create
              (record {
                user_id = user;
                public_key = key;
                alias = alias;
                is_default = length existing == 0;
              })
              t)
            t).1
  created_row-InOrder existing user key alias t h few =
      let counted : length existing ≡ count (is_of user) (table.all t) =
        ap length h.1 ∙ length-filter (is_of user) (table.all t) in
      created-InOrder _ t h.0 (ground (arith, counted)) (ap (λ n. n == 0) counted)

  pub create_wallet-Keeps :
      (network : Option String) (user key : String) (alias : Option String)
      → Keeps (create_wallet table network user key alias)
  unfolding create_wallet get_wallets
  create_wallet-Keeps network user key alias =
      Triple-bind (λ existing t. Room user existing t)
        (Triple-gets (λ t. filter (is_of user) (table.all t)) (λ t h. (h, refl)))
        (λ existing.
          Triple-bind (λ _ t. Room user existing t × (leb 5 (length existing) ≡ false))
            (Triple-throw_if (leb 5 (length existing)) failure (λ t h. h.0) (λ e t h. (h, e)))
            (λ _.
              Triple-bind (λ _ t. Room user existing t × (leb 5 (length existing) ≡ false))
                (Triple-throw_if (is_long alias) failure (λ t h. h.0.0) (λ e t h. h))
                (λ _.
                  Triple-bind (λ _. InOrder table lawful)
                    (record {
                      run = λ t h.
                          Ends-both (InOrder table lawful) _ _
                            (created_row-InOrder existing user key alias t h.0 h.1);
                    })
                    (after_create-Keeps network))))

  pub set_default-Keeps : (id user : String) → Keeps (set_default_wallet table id user)
  set_default-Keeps id user =
      Keeps-state (set_default_wallet table id user) (set_default-InOrder table lawful id user)

  pub get_wallet-Keeps : (id user : String) → Keeps (get_wallet_by_id table id user)
  get_wallet-Keeps id user = Keeps-state (get_wallet_by_id table id user) (λ t h.
      elim (get_wallet_cases table lawful id user t) [
        | inl refused ↦ rw refused h
        | inr (w, owns, got) ↦ rw got h
      ])

  pub update_wallet_alias-Keeps :
      (id user : String) (alias : Option String) → Keeps (update_wallet_alias table id user alias)
  unfolding update_wallet_alias
  update_wallet_alias-Keeps id user alias =
      Triple-bind (λ _. InOrder table lawful) (get_wallet-Keeps id user)
        (λ _.
          Triple-bind (λ _. InOrder table lawful)
            (Triple-throw_if (is_long alias) failure (λ t h. h) (λ e t h. h))
            (λ _. Keeps-state (update_row table id (λ w. record w { alias = alias })) (λ t h.
              update_row-InOrder table lawful id (λ w. record w { alias = alias }) t (λ w. refl)
                (λ w u. refl) (λ w u. refl) h)))

  pub import_wallet-Keeps :
      (network : Option String) (user : String) (key : Option String) (secret : String)
      (alias : Option String)
      → Keeps (import_wallet table network user key secret alias)
  unfolding import_wallet
  import_wallet-Keeps network user key secret alias =
      Triple-bind (λ _. InOrder table lawful)
        (Triple-or_throw key failure (λ t h. h) (λ a e t h. h))
        (λ k.
          Triple-bind (λ _. InOrder table lawful) (create_wallet-Keeps network user k alias)
            (λ w.
              Keeps-state (update_row table w.id (λ x. record x { encrypted_secret = some secret }))
                (λ t h.
                  update_row-InOrder table lawful w.id
                    (λ x. record x { encrypted_secret = some secret }) t (λ x. refl) (λ x u. refl)
                    (λ x u. refl) h)))
