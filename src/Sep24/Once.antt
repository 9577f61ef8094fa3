-- ===== src/Sep24/Once.antt =====
-- Confirmations in apps/api/src/anchor/sep24.service.ts and the calls that follow them.
use afro_pay_stellar.Prelude.{
  ℕ, String, ◌≡◌, refl, sym, ap, subst, ◌∙◌, false, Option, some, List, str_eq_iff, Error, Result,
  ok, err, inl, inr,
}
use afro_pay_stellar.Sep24.{
  is_incomplete, Session, Jwt, SessionTable, Confirmed, confirmed_row, confirmation,
}
use afro_pay_stellar.Sep24.Sessions.{open_session, get_session_data, confirm_interactive_session}
use afro_pay_stellar.Sep24.Steps.{
  IsSessionTable, Opened, open_session_cases, get_session_data-open, confirm-open, data_result,
  confirm_result,
}
use afro_pay_stellar.Sep24.Steps.{err_ok, ok_inj}
use afro_pay_stellar.Sep24.Settled.{Op, run_all, run_all-settled, Opened-settled}

module _ {Json : Type 0} (jwt : Jwt) (table : SessionTable Json) where
  -- The session that a confirmation leaves: closed, with the memo that was given to the user.
  abbrev pub IsConfirmed : String → String → Confirmed → table.Rows → Type 0
  IsConfirmed token memo c rows =
      (row : Session Json) × (table.find_token token rows ≡ some row)
      × (is_incomplete row.status ≡ false)
      × (confirmation row ≡ c)
      × (row.memo ≡ some memo)

  confirmed-IsConfirmed :
      (lawful : IsSessionTable table) (now : ℕ) (memo token : String) (form : Json) (pay : String)
      (amount : Option String) (rows : table.Rows) (c : Confirmed) (r : Result (Session Json))
      (rows' : table.Rows)
      → Opened jwt table now token rows (r, rows')
      → (confirm_result jwt table now memo form pay amount (r, rows')).0 ≡ ok c
      → IsConfirmed token memo c (confirm_result jwt table now memo form pay amount (r, rows')).1
  confirmed-IsConfirmed lawful now memo token form pay amount rows c (err e) rows' opened h =
      absurd (err_ok h)
  confirmed-IsConfirmed lawful now memo token form pay amount rows c (ok tx') rows'
        (inl (e, g, same)) h =
      absurd (err_ok (sym g))
  confirmed-IsConfirmed lawful now memo token form pay amount rows c (ok tx') rows'
        (inr (tx, found, open_, inl (g, late))) h =
      absurd (err_ok (sym g))
  confirmed-IsConfirmed lawful now memo token form pay amount rows c (ok tx') rows'
        (inr (tx, found, open_, inr (g, same))) h =
      let same_tx : tx' ≡ tx = ok_inj g in
      let key : tx.session_token ≡ token = lawful.token-found token tx rows found in
      let row = confirmed_row now memo form pay amount tx' in
      (
        row,
        rw (same, same_tx)
            (lawful.find-write token (confirmed_row now memo form pay amount tx) tx rows
                (ap (λ k. table.find_token k rows) key ∙ found) refl
              ∙ rw ((str_eq_iff tx.session_token token).1 key) refl),
        refl,
        ok_inj h,
        refl,
      )

  refused_get :
      (now : ℕ) (token : String) (row : Session Json) (rows : table.Rows)
      → table.find_token token rows ≡ some row
      → is_incomplete row.status ≡ false
      → (e : Error) × (get_session_data jwt table now token rows ≡ (err e, rows))
  refused_get now token row rows found closed =
      let o = open_session jwt table now token rows in
      let (e, refused, same) =
        Opened-settled jwt table now token row rows o.0 o.1 found closed
          (open_session_cases jwt table now token rows) in
      (
        e,
        get_session_data-open jwt table now token rows o.0 o.1 refl
            ∙ ap (λ r. (data_result jwt table r, o.1)) refused
            ∙ ap (λ s. (err e, s)) same,
      )

  refused_confirm :
      (now : ℕ) (memo token : String) (form : Json) (pay : String) (amount : Option String)
      (row : Session Json) (rows : table.Rows)
      → table.find_token token rows ≡ some row
      → is_incomplete row.status ≡ false
      → (e : Error) × (confirm_interactive_session jwt table now memo token form pay amount rows
          ≡ (err e, rows))
  refused_confirm now memo token form pay amount row rows found closed =
      let o = open_session jwt table now token rows in
      let (e, refused, same) =
        Opened-settled jwt table now token row rows o.0 o.1 found closed
          (open_session_cases jwt table now token rows) in
      (
        e,
        confirm-open jwt table now memo token form pay amount rows o.0 o.1 refl
            ∙ ap (λ r. confirm_result jwt table now memo form pay amount (r, o.1)) refused
            ∙ ap (λ s. (err e, s)) same,
      )

  confirm-IsConfirmed :
      (lawful : IsSessionTable table) (now : ℕ) (memo token : String) (form : Json) (pay : String)
      (amount : Option String) (rows : table.Rows) (c : Confirmed)
      → (confirm_interactive_session jwt table now memo token form pay amount rows).0 ≡ ok c
      → IsConfirmed token memo c
          (confirm_interactive_session jwt table now memo token form pay amount rows).1
  confirm-IsConfirmed lawful now memo token form pay amount rows c h =
      let o = open_session jwt table now token rows in
      let eq = confirm-open jwt table now memo token form pay amount rows o.0 o.1 refl in
      subst (λ x. IsConfirmed token memo c x.1) (sym eq)
        (confirmed-IsConfirmed lawful now memo token form pay amount rows c o.0 o.1
          (open_session_cases jwt table now token rows) (sym (ap (λ x. x.0) eq) ∙ h))

  -- Once a session is confirmed, whatever calls follow, of this session and of others, it stays
  -- closed with the answer and the memo of that confirmation, and from then on every request for its
  -- data and every confirmation of it is refused and changes nothing. (Both keys of the table are
  -- unique.)
  pub confirm-once :
      (lawful : IsSessionTable table) (now : ℕ) (memo token : String) (form : Json) (pay : String)
      (amount : Option String) (rows : table.Rows) (c : Confirmed) (ops : List (Op Json))
      → (confirm_interactive_session jwt table now memo token form pay amount rows).0 ≡ ok c
      → let later =
          run_all jwt table ops
            (confirm_interactive_session jwt table now memo token form pay amount rows).1 in
        IsConfirmed token memo c later
        × ((now' : ℕ)
            → (e : Error) × (get_session_data jwt table now' token later ≡ (err e, later)))
        × ((now' : ℕ) (memo' : String) (form' : Json) (pay' : String) (amount' : Option String)
            → (e : Error) × (confirm_interactive_session jwt table now' memo' token form' pay'
                  amount' later
                ≡ (err e, later)))
  confirm-once lawful now memo token form pay amount rows c ops h =
      let after = (confirm_interactive_session jwt table now memo token form pay amount rows).1 in
      let (row, found, closed, answer, kept) =
        confirm-IsConfirmed lawful now memo token form pay amount rows c h in
      let still = run_all-settled jwt table lawful ops token row after found closed in
      (
        (row, still, closed, answer, kept),
        (λ now'. refused_get now' token row (run_all jwt table ops after) still closed),
        (λ now' memo' form' pay' amount'.
            refused_confirm now' memo' token form' pay' amount' row (run_all jwt table ops after)
              still closed),
      )
