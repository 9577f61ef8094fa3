-- ===== src/Transaction/History.antt =====
-- `getHistory` and `getTransactions` of apps/api/src/transaction/transaction.service.ts: a user's
-- transactions page by page, by cursors or by numbers. A cursor is a text that is not empty.
pub mod Walk
mod Tests
use afro_pay_stellar.Prelude.{
  ℕ, ◌+◌, ◌-◌, ◌*◌, min, max, String, Bool, true, false, Option, none, some, List, [], ◌∷◌, length,
  take, ltb, if◌then◌else◌, Result, ok, err, bad_request,
}
use afro_pay_stellar.Transaction.{Tx, TxStatus}

abbrev pub history_max_limit : ℕ
history_max_limit = 100

abbrev pub history_default_limit : ℕ
history_default_limit = 25

-- `count` and `findMany` over the rows of a user, the newest first; `find_many` starts after the row
-- of the cursor, and takes so many.
pub record HistoryTable (Score : Type 0) : Type 1 where
  pub Rows : Type 0
  pub count : String → Rows → ℕ
  pub find_many : String → Option String → ℕ → Rows → List (Tx Score)

pub record GetHistoryOptions : Type 0 where
  pub limit : Option ℕ
  pub cursor : Option String

pub record PaginatedHistory (Score : Type 0) : Type 0 where
  pub items : List (Tx Score)
  pub next_cursor : Option String
  pub total : ℕ

abbrev or_limit : Option ℕ → ℕ
or_limit none = history_default_limit
or_limit (some n) = n

module _ {Score : Type 0} where
  -- `data[data.length - 1].id`
  abbrev pub last_id : List (Tx Score) → Option String
  last_id [] = none
  last_id (x ∷ []) = some x.id
  last_id (x ∷ y ∷ ys) = last_id (y ∷ ys)

  -- The page from one row more than its limit.
  pub paginate : ℕ → ℕ → List (Tx Score) → PaginatedHistory Score
  paginate limit total rows =
      let more = ltb limit (length rows) in
      let items = if more then take limit rows else rows in
      record { items = items; next_cursor = if more then last_id items else none; total = total }

module _ {Score : Type 0} (table : HistoryTable Score) where
  pub get_history : String → GetHistoryOptions → table.Rows → Result (PaginatedHistory Score)
  get_history user options rows =
      let raw = or_limit options.limit in
      let limit = max 1 raw in
      if ltb history_max_limit raw
      then err bad_request
      else ok (
          paginate limit (table.count user rows)
            (table.find_many user options.cursor (limit + 1) rows))

-- `getTransactions`: the filters that are not empty, and the page.
pub record Filters : Type 0 where
  pub status : Option TxStatus
  pub asset_code : Option String
  pub from : Option ℕ
  pub to : Option ℕ

pub record GetTransactionsOptions : Type 0 where
  pub page : Option ℕ
  pub limit : Option ℕ
  pub filters : Filters

pub record PaginatedTransactions (Score : Type 0) : Type 0 where
  pub items : List (Tx Score)
  pub total : ℕ
  pub page : ℕ
  pub limit : ℕ

-- `count` and `findMany` of a user under filters; `find_page` skips and takes so many rows.
pub record FilteredTable (Score : Type 0) : Type 1 where
  pub Rows : Type 0
  pub count : String → Filters → Rows → ℕ
  pub find_page : String → Filters → ℕ → ℕ → Rows → List (Tx Score)

abbrev or_default : ℕ → Option ℕ → ℕ
or_default n none = n
or_default n (some k) = k

module _ {Score : Type 0} (table : FilteredTable Score) where
  pub get_transactions : String → GetTransactionsOptions → table.Rows → PaginatedTransactions Score
  get_transactions user options rows =
      let page = max 1 (or_default 1 options.page) in
      let limit = min history_max_limit (max 1 (or_default history_default_limit options.limit)) in
      record {
        items = table.find_page user options.filters ((page - 1) * limit) limit rows;
        total = table.count user options.filters rows;
        page = page;
        limit = limit;
      }
