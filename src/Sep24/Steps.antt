-- ===== src/Sep24/Steps.antt =====
-- What one call of apps/api/src/anchor/sep24.service.ts may do to the table of sessions.
use afro_pay_stellar.Prelude.{
  ℕ, String, ◌≡◌, refl, sym, ap, subst, true, Option, none, some, ltb, str_eq, if◌then◌else◌, Error,
  bad_request, unauthorized, Result, ok, err, Bool-cases, Option-cases, ◌⊎◌, inl, inr, ◌>>=◌,
}
use afro_pay_stellar.Sep24.{
  Kind, is_incomplete, Session, Jwt, SessionTable, SessionData, Confirmed, expired_row,
  confirmed_row, new_session, data_of, confirmation,
}
use afro_pay_stellar.Sep24.Sessions.{
  open_session, create_interactive_session, get_session_data, confirm_row,
  confirm_interactive_session, sign_session_token,
}

pub err_ok : {A : Type 0} {e : Error} {a : A} → ◌≡◌ {A = Result A} (err e) (ok a) → ⊥
err_ok h = cc h

pub ok_inj : {A : Type 0} {a b : A} → ◌≡◌ {A = Result A} (ok a) (ok b) → a ≡ b
ok_inj h = cc h

-- What the table of sessions does: both keys are unique, an update keeps them.
pub record IsSessionTable {Json : Type 0} (table : SessionTable Json) : Type 0 where
  pub token-found :
      (k : String) (r : Session Json) (t : table.Rows)
      → table.find_token k t ≡ some r
      → r.session_token ≡ k
  pub fresh :
      (r : Session Json) (t t' : table.Rows)
      → table.create r t ≡ some t'
      → table.find_token r.session_token t ≡ none
  pub find-create :
      (k : String) (r : Session Json) (t t' : table.Rows)
      → table.create r t ≡ some t'
      → table.find_token k t' ≡ (if str_eq r.session_token k then some r else table.find_token k t)
  pub find-write :
      (k : String) (r old : Session Json) (t : table.Rows)
      → table.find_token r.session_token t ≡ some old
      → old.id ≡ r.id
      → table.find_token k (table.write r t)
        ≡ (if str_eq r.session_token k then some r else table.find_token k t)

module _ {Json : Type 0} (jwt : Jwt) (table : SessionTable Json) where
  -- What the shared guards may do: refuse and change nothing, expire an open session, or pass it on.
  abbrev pub Opened : ℕ → String → table.Rows → Result (Session Json) × table.Rows → Type 0
  Opened now token rows (r, rows') =
      ((e : Error) × (r ≡ err e) × (rows' ≡ rows))
      ⊎ ((tx : Session Json) × (table.find_token token rows ≡ some tx)
          × (is_incomplete tx.status ≡ true)
          × (((r ≡ err bad_request) × (rows' ≡ table.write (expired_row now tx) rows))
              ⊎ ((r ≡ ok tx) × (rows' ≡ rows))))

  pub open_session_cases :
      (now : ℕ) (token : String) (rows : table.Rows)
      → Opened now token rows (open_session jwt table now token rows)
  unfolding open_session ◌>>=◌
  open_session_cases now token rows = elim (Option-cases (jwt.verify token now)) [
    | inl e ↦ rw (e, open_session) (inl (unauthorized, refl, refl))
    | inr (p, e) ↦ elim (Option-cases (table.find_token token rows)) [
      | inl f ↦ rw (e, f, open_session) (inl (_, refl, refl))
      | inr (tx, f) ↦ elim (Bool-cases (is_incomplete tx.status)) [
        | inl open_ ↦ elim (Bool-cases (ltb tx.session_expires_at now)) [
          | inl late ↦
              rw (e, f, open_, late, open_session) (inr (tx, refl, open_, inl (refl, refl)))
          | inr intime ↦
              rw (e, f, open_, intime, open_session) (inr (tx, refl, open_, inr (refl, refl)))
        ]
        | inr closed ↦ rw (e, f, closed, open_session) (inl (_, refl, refl))
      ]
    ]
  ]

  abbrev pub data_result : Result (Session Json) → Result SessionData
  data_result (ok tx) = ok (data_of tx)
  data_result (err e) = err e

  pub get_session_data-open :
      (now : ℕ) (token : String) (rows : table.Rows) (r : Result (Session Json))
      (rows' : table.Rows)
      → open_session jwt table now token rows ≡ (r, rows')
      → get_session_data jwt table now token rows ≡ (data_result r, rows')
  unfolding get_session_data ◌>>=◌
  get_session_data-open now token rows (ok tx) rows' h = rw (h, get_session_data) refl
  get_session_data-open now token rows (err e) rows' h = rw (h, get_session_data) refl

  abbrev pub confirm_result :
      ℕ
      → String
      → Json
      → String
      → Option String
      → Result (Session Json) × table.Rows
      → Result Confirmed × table.Rows
  confirm_result now memo form pay amount (err e, rows) = (err e, rows)
  confirm_result now memo form pay amount (ok tx, rows) = (
    ok (confirmation (confirmed_row now memo form pay amount tx)),
    table.write (confirmed_row now memo form pay amount tx) rows,
  )

  pub confirm-open :
      (now : ℕ) (memo token : String) (form : Json) (pay : String) (amount : Option String)
      (rows : table.Rows) (r : Result (Session Json)) (rows' : table.Rows)
      → open_session jwt table now token rows ≡ (r, rows')
      → confirm_interactive_session jwt table now memo token form pay amount rows
        ≡ confirm_result now memo form pay amount (r, rows')
  unfolding confirm_interactive_session confirm_row ◌>>=◌
  confirm-open now memo token form pay amount rows (ok tx) rows' h =
      rw (h, confirm_interactive_session) refl
  confirm-open now memo token form pay amount rows (err e) rows' h =
      rw (h, confirm_interactive_session) refl

  -- What one call does to the table: nothing, a new row, or a write to an open session.
  abbrev pub Touches : table.Rows → table.Rows → Type 0
  Touches rows rows' =
      (rows' ≡ rows)
      ⊎ (((r : Session Json) × (table.create r rows ≡ some rows'))
          ⊎ ((token : String) × (tx : Session Json) × (new : Session Json) × (table.find_token token
                  rows
                ≡ some tx)
              × (is_incomplete tx.status ≡ true)
              × (new.id ≡ tx.id)
              × (new.session_token ≡ tx.session_token)
              × (rows' ≡ table.write new rows)))

  Touches-Opened :
      (now : ℕ) (token : String) (rows : table.Rows) (r : Result (Session Json))
      (rows' : table.Rows)
      → Opened now token rows (r, rows')
      → Touches rows rows'
  Touches-Opened now token rows r rows' (inl (e, h, same)) = inl same
  Touches-Opened now token rows r rows' (inr (tx, found, open_, inl (h, late))) =
      inr (inr (token, tx, expired_row now tx, found, open_, refl, refl, late))
  Touches-Opened now token rows r rows' (inr (tx, found, open_, inr (h, same))) = inl same

  pub Touches-get :
      (now : ℕ) (token : String) (rows : table.Rows)
      → Touches rows (get_session_data jwt table now token rows).1
  Touches-get now token rows =
      subst (λ x. Touches rows x.1) (sym (get_session_data-open now token rows _ _ refl))
        (Touches-Opened now token rows _ _ (open_session_cases now token rows))

  Touches-confirmed :
      (now : ℕ) (memo token : String) (form : Json) (pay : String) (amount : Option String)
      (rows : table.Rows) (r : Result (Session Json)) (rows' : table.Rows)
      → Opened now token rows (r, rows')
      → Touches rows (confirm_result now memo form pay amount (r, rows')).1
  Touches-confirmed now memo token form pay amount rows r rows' (inl (e, h, same)) = rw h (inl same)
  Touches-confirmed now memo token form pay amount rows r rows'
        (inr (tx, found, open_, inl (h, late))) =
      rw h (inr (inr (token, tx, expired_row now tx, found, open_, refl, refl, late)))
  Touches-confirmed now memo token form pay amount rows r rows'
        (inr (tx, found, open_, inr (h, same))) =
      rw h (
        inr (
          inr (
            token,
            tx,
            confirmed_row now memo form pay amount tx,
            found,
            open_,
            refl,
            refl,
            ap (table.write (confirmed_row now memo form pay amount tx)) same,
          )))

  pub Touches-confirm :
      (now : ℕ) (memo token : String) (form : Json) (pay : String) (amount : Option String)
      (rows : table.Rows)
      → Touches rows (confirm_interactive_session jwt table now memo token form pay amount rows).1
  Touches-confirm now memo token form pay amount rows =
      subst (λ x. Touches rows x.1)
        (sym (confirm-open now memo token form pay amount rows _ _ refl))
        (Touches-confirmed now memo token form pay amount rows _ _
          (open_session_cases now token rows))

  pub create-Touches :
      (url_of : String → String) (ttl now : ℕ) (tx_id row_id account : String) (kind : Kind)
      (asset : String) (issuer amount : Option String) (rows : table.Rows)
      → Touches rows
          (create_interactive_session jwt table url_of ttl now tx_id row_id account kind asset
            issuer amount rows).1
  unfolding create_interactive_session ◌>>=◌
  create-Touches url_of ttl now tx_id row_id account kind asset issuer amount rows =
      let row = new_session row_id now ttl account kind asset issuer amount (
        sign_session_token jwt table ttl now
          (record { tx_id = tx_id; account = account; kind = kind })) in
      elim (Option-cases (table.create row rows)) [
        | inl e ↦ rw (e, create_interactive_session) (inl refl)
        | inr (rows', e) ↦ rw (e, create_interactive_session) (inr (inl (row, e)))
      ]
