-- ===== src/Sep24/Race.antt =====
-- Two confirmations of one session in apps/api/src/anchor/sep24.service.ts that come at once.
use afro_pay_stellar.Prelude.{ℕ, String, ◌≡◌, refl, ap, ◌∙◌, Option, some, str_eq_iff, ok, ◌>>=◌}
use afro_pay_stellar.Sep24.{Session, Jwt, SessionTable, confirmed_row, confirmation}
use afro_pay_stellar.Sep24.Sessions.{confirm_row}
use afro_pay_stellar.Sep24.Steps.{IsSessionTable}

module _ {Json : Type 0} (jwt : Jwt) (table : SessionTable Json) where
  confirm_row-writes :
      (lawful : IsSessionTable table) (now : ℕ) (memo token : String) (form : Json) (pay : String)
      (amount : Option String) (tx old : Session Json) (rows : table.Rows)
      → table.find_token token rows ≡ some old
      → old.id ≡ tx.id
      → tx.session_token ≡ token
      → ((confirm_row jwt table now memo form pay amount tx rows).0
          ≡ ok (confirmation (confirmed_row now memo form pay amount tx)))
        × (table.find_token token (confirm_row jwt table now memo form pay amount tx rows).1
            ≡ some (confirmed_row now memo form pay amount tx))
  unfolding confirm_row ◌>>=◌
  confirm_row-writes lawful now memo token form pay amount tx old rows found id key = (
    refl,
    lawful.find-write token (confirmed_row now memo form pay amount tx) old rows
          (ap (λ k. table.find_token k rows) key ∙ found) id
        ∙ rw ((str_eq_iff tx.session_token token).1 key) refl,
  )

  -- Two confirmations that have both read the open session before either writes it both succeed, and
  -- each answers with its own memo; the row keeps the form, the method and the memo of the later
  -- write only, so the memo that the other user was told leads nowhere.
  pub late_confirm-overwrites :
      (lawful : IsSessionTable table) (now now' : ℕ) (memo memo' token : String) (form form' : Json)
      (pay pay' : String) (amount amount' : Option String) (tx : Session Json) (rows : table.Rows)
      → table.find_token token rows ≡ some tx
      → let first = confirm_row jwt table now memo form pay amount tx rows in
        let second = confirm_row jwt table now' memo' form' pay' amount' tx first.1 in
        (first.0 ≡ ok (confirmation (confirmed_row now memo form pay amount tx)))
        × (second.0 ≡ ok (confirmation (confirmed_row now' memo' form' pay' amount' tx)))
        × (table.find_token token second.1 ≡ some (confirmed_row now' memo' form' pay' amount' tx))
  late_confirm-overwrites lawful now now' memo memo' token form form' pay pay' amount amount' tx
        rows found =
      let key = lawful.token-found token tx rows found in
      let first =
        confirm_row-writes lawful now memo token form pay amount tx tx rows found refl key in
      let second =
        confirm_row-writes lawful now' memo' token form' pay' amount' tx
          (confirmed_row now memo form pay amount tx)
          (confirm_row jwt table now memo form pay amount tx rows).1 first.1 refl key in
      (first.0, second.0, second.1)
