-- ===== src/Sep24/Settled.antt =====
-- Sessions of apps/api/src/anchor/sep24.service.ts over sequences of calls, once closed.
use afro_pay_stellar.Prelude.{
  ℕ, String, ◌≡◌, sym, ap, ◌∙◌, true, false, true≢false, Option, none, some, List, [], ◌∷◌, str_eq,
  str_eq_iff, Error, Result, err, Bool-cases, inl, inr,
}
use afro_pay_stellar.Sep24.{Kind, is_incomplete, Session, Jwt, SessionTable}
use afro_pay_stellar.Sep24.Sessions.{
  create_interactive_session, get_session_data, confirm_interactive_session,
}
use afro_pay_stellar.Sep24.Steps.{
  IsSessionTable, Opened, Touches, Touches-get, Touches-confirm, create-Touches,
}

pub data Op (Json : Type 0) : Type 0 where
  creating :
      (url_of : String → String) (ttl now : ℕ) (tx_id row_id account : String) (kind : Kind)
      (asset : String) (issuer amount : Option String)
      → Op Json
  getting : (now : ℕ) (token : String) → Op Json
  confirming :
      (now : ℕ) (memo token : String) (form : Json) (pay : String) (amount : Option String)
      → Op Json

module _ {Json : Type 0} (jwt : Jwt) (table : SessionTable Json) where
  unfoldable pub run : Op Json → table.Rows → table.Rows
  run (creating url_of ttl now tx_id row_id account kind asset issuer amount) rows =
      (create_interactive_session jwt table url_of ttl now tx_id row_id account kind asset issuer
        amount rows).1
  run (getting now token) rows = (get_session_data jwt table now token rows).1
  run (confirming now memo token form pay amount) rows =
      (confirm_interactive_session jwt table now memo token form pay amount rows).1

  unfoldable pub run_all : List (Op Json) → table.Rows → table.Rows
  run_all [] rows = rows
  run_all (op ∷ ops) rows = run_all ops (run op rows)

  Touches-run : (op : Op Json) (rows : table.Rows) → Touches jwt table rows (run op rows)
  unfolding run
  Touches-run (creating url_of ttl now tx_id row_id account kind asset issuer amount) rows =
      create-Touches jwt table url_of ttl now tx_id row_id account kind asset issuer amount rows
  Touches-run (getting now token) rows = Touches-get jwt table now token rows
  Touches-run (confirming now memo token form pay amount) rows =
      Touches-confirm jwt table now memo token form pay amount rows

  not_both :
      (token : String) (row tx : Session Json) (rows : table.Rows)
      → table.find_token token rows ≡ some row
      → is_incomplete row.status ≡ false
      → table.find_token token rows ≡ some tx
      → is_incomplete tx.status ≡ true
      → ⊥
  not_both token row tx rows found closed f open_ =
      let same : tx ≡ row = cc (sym f ∙ found) in
      true≢false (sym open_ ∙ ap (λ t. is_incomplete t.status) same ∙ closed)

  module _ (lawful : IsSessionTable table) where
    taken :
        (token : String) (row r : Session Json) (rows rows' : table.Rows)
        → table.find_token token rows ≡ some row
        → table.create r rows ≡ some rows'
        → r.session_token ≡ token
        → ⊥
    taken token row r rows rows' found made hit =
        let none_some : ◌≡◌ {A = Option (Session Json)} none (some row) =
          sym (lawful.fresh r rows rows' made) ∙ ap (λ k. table.find_token k rows) hit ∙ found in
        cc none_some

    -- A session that is not open any more stays as it is.
    Touches-settled :
        (token : String) (row : Session Json) (rows rows' : table.Rows)
        → table.find_token token rows ≡ some row
        → is_incomplete row.status ≡ false
        → Touches jwt table rows rows'
        → table.find_token token rows' ≡ some row
    Touches-settled token row rows rows' found closed (inl same) = rw same found
    Touches-settled token row rows rows' found closed (inr (inl (r, made))) =
        lawful.find-create token r rows rows' made
        ∙ elim (Bool-cases (str_eq r.session_token token)) [
          | inl hit ↦
              absurd
                (taken token row r rows rows' found made ((str_eq_iff r.session_token token).0 hit))
          | inr miss ↦ rw miss found
        ]
    Touches-settled token row rows rows' found closed
          (inr (inr (token', tx, new, f, open_, id, key, wrote))) =
        let same_key : new.session_token ≡ token' = key ∙ lawful.token-found token' tx rows f in
        rw wrote (
          lawful.find-write token new tx rows (ap (λ k. table.find_token k rows) same_key ∙ f)
            (sym id)
          ∙ elim (Bool-cases (str_eq new.session_token token)) [
            | inl hit ↦ absurd (
                not_both token row tx rows found closed
                  (ap (λ k. table.find_token k rows)
                      (sym ((str_eq_iff new.session_token token).0 hit) ∙ same_key)
                    ∙ f)
                  open_)
            | inr miss ↦ rw miss found
          ])

    pub run_all-settled :
        (ops : List (Op Json)) (token : String) (row : Session Json) (rows : table.Rows)
        → table.find_token token rows ≡ some row
        → is_incomplete row.status ≡ false
        → table.find_token token (run_all ops rows) ≡ some row
    unfolding run_all
    run_all-settled [] token row rows found closed = found
    run_all-settled (op ∷ ops) token row rows found closed =
        run_all-settled ops token row (run op rows)
          (Touches-settled token row rows (run op rows) found closed (Touches-run op rows)) closed

  pub Opened-settled :
      (now : ℕ) (token : String) (row : Session Json) (rows : table.Rows)
      (r : Result (Session Json)) (rows' : table.Rows)
      → table.find_token token rows ≡ some row
      → is_incomplete row.status ≡ false
      → Opened jwt table now token rows (r, rows')
      → (e : Error) × (r ≡ err e) × (rows' ≡ rows)
  Opened-settled now token row rows r rows' found closed (inl refused) = refused
  Opened-settled now token row rows r rows' found closed (inr (tx, f, open_, rest)) =
      absurd (not_both token row tx rows found closed f open_)
