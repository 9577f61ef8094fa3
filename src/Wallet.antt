-- ===== src/Wallet.antt =====
-- apps/api/src/wallet/wallet.service.ts: the wallets of a user, one of them the default. The table is
-- an argument; its rows, in the order of their creation, are all that the queries read.
pub mod Service
pub mod Counting
pub mod Defaults
pub mod Orderly
pub mod Kept
pub mod Deleting
pub mod Sequence
mod Tests
use Prim.Native.Char.{Char, code}
use afro_pay_stellar.Prelude.{
  ℕ, ◌+◌, String, ◌≡◌, ◌≢◌, Bool, true, false, not, ◌&&◌, Option, none, some, List, [], ◌∷◌, ◌++◌,
  map, ltb, leb, str_eq, if◌then◌else◌, filter, All,
}

pub record Wallet : Type 0 where
  pub id : String
  pub user_id : String
  pub public_key : String
  pub alias : Option String
  pub is_default : Bool
  pub encrypted_secret : Option String

-- What `create` is given.
pub record NewWallet : Type 0 where
  pub user_id : String
  pub public_key : String
  pub alias : Option String
  pub is_default : Bool

-- `create`, `update` and `delete` give none where the database or its client refuses them.
pub record WalletTable : Type 1 where
  pub Rows : Type 0
  pub all : Rows → List Wallet
  pub create : NewWallet → Rows → Option (Wallet × Rows)
  pub update : String → (Wallet → Wallet) → Rows → Option Rows
  pub update_many : (Wallet → Bool) → (Wallet → Wallet) → Rows → Rows
  pub delete : String → Rows → Option Rows

-- A write to the rows that match.
abbrev pub update_where : (Wallet → Bool) → (Wallet → Wallet) → List Wallet → List Wallet
update_where p f ws = map (λ w. if p w then f w else w) ws

abbrev pub has_id : String → Wallet → Bool
has_id id w = str_eq w.id id

abbrev pub is_of : String → Wallet → Bool
is_of user w = str_eq w.user_id user

abbrev pub is_default_of : String → Wallet → Bool
is_default_of user w = str_eq w.user_id user && w.is_default

-- `findFirst`
abbrev pub find_first : (Wallet → Bool) → List Wallet → Option Wallet
find_first p [] = none
find_first p (w ∷ ws) = let rest = find_first p ws in if p w then some w else rest

-- What the writes do to the rows. A new row has an identifier of its own.
pub record IsWalletTable (table : WalletTable) : Type 0 where
  pub all-create :
      (n : NewWallet) (t t' : table.Rows) (w : Wallet)
      → table.create n t ≡ some (w, t')
      → (table.all t' ≡ table.all t ++ w ∷ [])
        × (w.user_id ≡ n.user_id)
        × (w.is_default ≡ n.is_default)
        × All (λ x. x.id ≢ w.id) (table.all t)
  pub all-update :
      (id : String) (f : Wallet → Wallet) (t t' : table.Rows)
      → table.update id f t ≡ some t'
      → table.all t' ≡ update_where (has_id id) f (table.all t)
  pub all-update_many :
      (p : Wallet → Bool) (f : Wallet → Wallet) (t : table.Rows)
      → table.all (table.update_many p f t) ≡ update_where p f (table.all t)
  pub all-delete :
      (id : String) (t t' : table.Rows)
      → table.delete id t ≡ some t'
      → table.all t' ≡ filter (λ w. not (has_id id w)) (table.all t)
  -- the flag can be written to a row that is there
  pub update-present :
      (id : String) (b : Bool) (t : table.Rows) (w : Wallet)
      → find_first (has_id id) (table.all t) ≡ some w
      → (t' : table.Rows) × (table.update id (λ x. record x { is_default = b }) t ≡ some t')

-- `String.prototype.length` counts units of 16 bits.
abbrev pub utf16_length : String → ℕ
utf16_length String.[] = 0
utf16_length (String.◌∷◌ c s) = (if leb 0x10000 (code c) then 2 else 1) + utf16_length s

-- `alias && alias.length > 32`
abbrev pub is_long : Option String → Bool
is_long none = false
is_long (some s) = ltb 32 (utf16_length s)
