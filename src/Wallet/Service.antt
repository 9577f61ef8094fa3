-- ===== src/Wallet/Service.antt =====
-- The operations of apps/api/src/wallet/wallet.service.ts that change the table of wallets. The keys,
-- the encryption and the network are arguments.
use afro_pay_stellar.Prelude.{
  String, Bool, true, false, not, ◌&&◌, Option, none, some, List, leb, ◌==◌, str_eq, if◌then◌else◌,
  filter, length, not_found, failure, ok, err, Exec, pure, throw, gets, or_throw, modify, throw_if,
  ◌>>=◌, ◌>>◌,
}
use afro_pay_stellar.Wallet.{Wallet, WalletTable, has_id, is_of, is_default_of, find_first, is_long}

-- `!wallet || wallet.userId !== userId`
abbrev pub owned_by : String → Option Wallet → Option Wallet
owned_by user none = none
owned_by user (some w) = if str_eq w.user_id user then some w else none

abbrev pub is_default_row : Option Wallet → Bool
is_default_row none = false
is_default_row (some w) = w.is_default

module _ (table : WalletTable) where
  abbrev pub created : Option (Wallet × table.Rows) → Exec table.Rows Wallet
  created none rows = (err failure, rows)
  created (some (w, rows')) rows = (ok w, rows')

  abbrev pub updated : String → Option table.Rows → Exec table.Rows Wallet
  updated id none rows = (err failure, rows)
  updated id (some rows') rows = or_throw (find_first (has_id id) (table.all rows')) failure rows'

  unfoldable pub update_row : String → (Wallet → Wallet) → Exec table.Rows Wallet
  unfolding or_throw
  update_row id f rows = updated id (table.update id f rows) rows

  abbrev pub removed : Option table.Rows → Exec table.Rows (Unit {0})
  removed none rows = (err failure, rows)
  removed (some rows') rows = (ok tt, rows')

  unfoldable pub delete_row : String → Exec table.Rows (Unit {0})
  delete_row id rows = removed (table.delete id rows) rows

  unfoldable pub get_wallets : String → Exec table.Rows (List Wallet)
  get_wallets user = gets (λ t. filter (is_of user) (table.all t))

  unfoldable pub get_default_wallet : String → Exec table.Rows Wallet
  get_default_wallet user = do
    found ← gets (λ t. find_first (is_default_of user) (table.all t))
    or_throw found not_found

  unfoldable pub get_wallet_by_id : String → String → Exec table.Rows Wallet
  get_wallet_by_id id user = do
    found ← gets (λ t. find_first (has_id id) (table.all t))
    or_throw (owned_by user found) not_found

  -- `STELLAR_NETWORK` is no name of the module: reading it throws where the environment has no global
  -- of that name, and on the test network `fundTestnetAccount`, which the class does not have, throws.
  unfoldable pub after_create : Option String → Wallet → Exec table.Rows Wallet
  after_create none w = throw failure
  after_create (some network) w = if str_eq network "testnet" then throw failure else pure w

  unfoldable pub create_wallet :
      Option String → String → String → Option String → Exec table.Rows Wallet
  unfolding get_wallets after_create
  create_wallet network user public_key alias = do
    existing ← get_wallets user
    throw_if (leb 5 (length existing)) failure
    throw_if (is_long alias) failure
    w ← (λ t.
        created
          (table.create
            (record {
              user_id = user;
              public_key = public_key;
              alias = alias;
              is_default = length existing == 0;
            })
            t)
          t)
    after_create network w

  unfoldable pub set_default_wallet : String → String → Exec table.Rows Wallet
  unfolding get_wallet_by_id update_row
  set_default_wallet id user = do
    get_wallet_by_id id user
    modify (table.update_many (is_default_of user) (λ w. record w { is_default = false }))
    update_row id (λ w. record w { is_default = true })

  unfoldable pub update_wallet_alias : String → String → Option String → Exec table.Rows Wallet
  unfolding get_wallet_by_id update_row
  update_wallet_alias id user alias = do
    get_wallet_by_id id user
    throw_if (is_long alias) failure
    update_row id (λ w. record w { alias = alias })

  -- The other wallet that becomes the default before the default one is deleted.
  unfoldable pub hand_over : String → Option Wallet → Exec table.Rows (Unit {0})
  unfolding set_default_wallet
  hand_over user none = pure tt
  hand_over user (some another) = do set_default_wallet another.id user; pure tt

  unfoldable pub delete_wallet : String → String → Exec table.Rows (Unit {0})
  unfolding get_wallet_by_id hand_over delete_row
  delete_wallet id user = do
    get_wallet_by_id id user
    owned ← gets (λ t. length (filter (is_of user) (table.all t)))
    throw_if (leb owned 1) failure
    w ← gets (λ t. find_first (has_id id) (table.all t))
    another ← gets (λ t. find_first (λ x. is_of user x && not (has_id id x)) (table.all t))
    (if is_default_row w then hand_over user another else pure tt)
    delete_row id

  -- `importWallet`: the public key and the encrypted secret of the key that is imported.
  unfoldable pub import_wallet :
      Option String → String → Option String → String → Option String → Exec table.Rows Wallet
  unfolding create_wallet update_row
  import_wallet network user public_key encrypted_secret alias = do
    key ← or_throw public_key failure
    w ← create_wallet network user key alias
    update_row w.id (λ x. record x { encrypted_secret = some encrypted_secret })
