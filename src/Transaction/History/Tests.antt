-- ===== src/Transaction/History/Tests.antt =====
-- A history in memory, and the theorem on its pages.
use afro_pay_stellar.Prelude.{
  String, ◌≡◌, refl, false, Option, none, some, List, [], ◌∷◌, length, take, arith,
}
use afro_pay_stellar.Transaction.{Tx, pending}
use afro_pay_stellar.Transaction.History.{HistoryTable}
use afro_pay_stellar.Transaction.History.Walk.{after, IsDistinct, IsPaged, collect, collect-all}

abbrev Row : Type 0
Row = Tx (Unit {0})

abbrev row : String → Row
row id = record {
  id = id;
  user_id = "u";
  wallet_id = "w1";
  destination = "GDEST";
  amount = "10";
  asset_code = "XLM";
  asset_issuer = none;
  memo = none;
  idempotency_key = none;
  status = pending;
  stellar_tx_hash = none;
  risk_score = none;
  flagged = false;
}

abbrev from_cursor : Option String → List Row → List Row
from_cursor none xs = xs
from_cursor (some c) xs = after c xs

abbrev table : HistoryTable (Unit {0})
table = record {
  Rows = List Row;
  count = λ user rows. length rows;
  find_many = λ user cursor n rows. take n (from_cursor cursor rows);
}

abbrev table-IsPaged : IsPaged table
table-IsPaged = record {
  all = λ user rows. rows;
  find_many_first = λ user n rows. refl;
  find_many_after = λ user c n rows. refl;
}

abbrev three : List Row
three = row "c" ∷ row "b" ∷ row "a" ∷ []

three-IsDistinct : IsDistinct three
three-IsDistinct = ((refl, (refl, tt)), ((refl, tt), (tt, tt)))

collect-all_example : collect table 4 "u" 1 none three ≡ three
collect-all_example =
    collect-all table table-IsPaged "u" 1 three (omega arith) (omega arith) three-IsDistinct
