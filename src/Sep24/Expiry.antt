-- ===== src/Sep24/Expiry.antt =====
-- The lifetime of a session and of its token in apps/api/src/anchor/sep24.service.ts.
use afro_pay_stellar.Prelude.{
  ℕ, ◌+◌, ◌/◌, ◌≤◌, ◌<◌, String, ◌≡◌, refl, sym, ap, subst, ◌∙◌, false, Option, none, some, arith,
  ltb, str_eq_refl, unauthorized, failure, Result, ok, err, Option-cases, Bool-cases, ◌⊎◌, inl, inr,
  ◌>>=◌,
}
use afro_pay_stellar.Sep24.{
  Kind, incomplete, Session, Sep24SessionPayload, Jwt, SessionTable, Interactive, new_session,
}
use afro_pay_stellar.Sep24.Sessions.{
  sign_session_token, create_interactive_session, open_session, get_session_data,
  confirm_interactive_session,
}
use afro_pay_stellar.Sep24.Steps.{
  err_ok, ok_inj, IsSessionTable, get_session_data-open, confirm-open,
}

-- What verifying does with the token of a payload, signed for `ttl` seconds (RFC 7519: `exp` counts
-- whole seconds from the second of signing).
pub record IsToken (jwt : Jwt) (p : Sep24SessionPayload) (ttl signed : ℕ) : Type 0 where
  pub valid :
      (now : ℕ)
      → now / 1_000 < signed / 1_000 + ttl
      → jwt.verify (jwt.sign p ttl signed) now ≡ some p
  pub expired :
      (now : ℕ) → signed / 1_000 + ttl ≤ now / 1_000 → jwt.verify (jwt.sign p ttl signed) now ≡ none

module _ {Json : Type 0} (jwt : Jwt) (table : SessionTable Json) where
  open_session-expired :
      (now : ℕ) (token : String) (rows : table.Rows)
      → jwt.verify token now ≡ none
      → open_session jwt table now token rows ≡ (err unauthorized, rows)
  unfolding open_session ◌>>=◌
  open_session-expired now token rows h = rw (h, open_session) refl

  open_session-valid :
      (now : ℕ) (token : String) (rows : table.Rows) (p : Sep24SessionPayload) (tx : Session Json)
      → jwt.verify token now ≡ some p
      → table.find_token token rows ≡ some tx
      → tx.status ≡ incomplete
      → ltb tx.session_expires_at now ≡ false
      → open_session jwt table now token rows ≡ (ok tx, rows)
  unfolding open_session ◌>>=◌
  open_session-valid now token rows p tx h found fresh intime =
      rw (h, found, fresh, intime, open_session) refl

  module _ (url_of : String → String) (ttl now : ℕ) (tx_id row_id account : String) (kind : Kind)
      (asset : String) (issuer amount : Option String) where
    abbrev pub payload_of : Sep24SessionPayload
    payload_of = record { tx_id = tx_id; account = account; kind = kind }

    abbrev pub session_token : String
    session_token = sign_session_token jwt table ttl now payload_of

    abbrev pub session_row : Session Json
    session_row = new_session row_id now ttl account kind asset issuer amount session_token

    abbrev pub creation : table.Rows → Result Interactive × table.Rows
    creation rows =
        create_interactive_session jwt table url_of ttl now tx_id row_id account kind asset issuer
          amount rows

    creation-some :
        (rows rows' : table.Rows)
        → table.create session_row rows ≡ some rows'
        → creation rows ≡ (ok (record { url = url_of session_token; id = row_id }), rows')
    unfolding create_interactive_session ◌>>=◌
    creation-some rows rows' h = rw (h, create_interactive_session) refl

    creation-none :
        (rows : table.Rows)
        → table.create session_row rows ≡ none
        → creation rows ≡ (err failure, rows)
    unfolding create_interactive_session ◌>>=◌
    creation-none rows h = rw (h, create_interactive_session) refl

    created-found :
        (lawful : IsSessionTable table) (rows rows' : table.Rows)
        → table.create session_row rows ≡ some rows'
        → table.find_token session_token rows' ≡ some session_row
    created-found lawful rows rows' h =
        lawful.find-create session_token session_row rows rows' h
        ∙ rw (str_eq_refl session_token) refl

    -- The URL that was returned has the token, and the token leads to what was asked for.
    abbrev pub Reads : ℕ → Interactive → table.Rows → Type 0
    Reads later i rows =
        (i.url ≡ url_of session_token)
        × (get_session_data jwt table later session_token rows ≡ (
          ok (record {
            id = i.id;
            kind = kind;
            stellar_account = account;
            asset_code = asset;
            asset_issuer = issuer;
            amount = amount;
            status = incomplete;
          }),
          rows,
        ))

    created-opens :
        (tokens : IsToken jwt payload_of ttl now) (rows : table.Rows) (later : ℕ)
        → table.find_token session_token rows ≡ some session_row
        → later / 1_000 < now / 1_000 + ttl
        → open_session jwt table later session_token rows ≡ (ok session_row, rows)
    unfolding sign_session_token
    created-opens tokens rows later found early =
        let payload : Sep24SessionPayload = record {
          tx_id = tx_id;
          account = account;
          kind = kind;
        } in
        open_session-valid later session_token rows payload_of session_row
          (tokens.valid later early) found refl (ground arith)

    -- A session reads back as it was created: when the creation succeeds, the request for the data of
    -- its token, at any time at which the token is valid, gives the account, kind, asset and amount of
    -- the creation under the identifier that it returned, and changes nothing.
    pub get_session_data-create :
        (lawful : IsSessionTable table) (tokens : IsToken jwt payload_of ttl now)
        (rows : table.Rows) (i : Interactive) (later : ℕ)
        → (creation rows).0 ≡ ok i
        → later / 1_000 < now / 1_000 + ttl
        → Reads later i (creation rows).1
    get_session_data-create lawful tokens rows i later h early =
        elim (Option-cases (table.create session_row rows)) [
          | inl none_made ↦ absurd (err_ok (sym (ap (λ x. x.0) (creation-none rows none_made)) ∙ h))
          | inr (rows', made) ↦
              let eq = creation-some rows rows' made in
              let answer : Interactive = record { url = url_of session_token; id = row_id } in
              let same : answer ≡ i = ok_inj (sym (ap (λ x. x.0) eq) ∙ h) in
              subst (λ j. Reads later j (creation rows).1) same
                (subst (λ x. Reads later answer x.1) (sym eq)
                  (
                    refl,
                    get_session_data-open jwt table later session_token rows' (ok session_row) rows'
                        (created-opens tokens rows' later (created-found lawful rows rows' made)
                          early),
                  ))
        ]

    -- What a call at a later time meets, after the creation: the row as it was created, or a token that
    -- has expired.
    abbrev pub PassesOrRefuses :
        (later : ℕ) (memo : String) (form : Json) (pay : String) (given : Option String)
        (rows : table.Rows)
        → Type 0
    PassesOrRefuses later memo form pay given rows =
        ((later / 1_000 < now / 1_000 + ttl)
          × (open_session jwt table later session_token rows ≡ (ok session_row, rows)))
        ⊎ ((now / 1_000 + ttl ≤ later / 1_000)
            × (get_session_data jwt table later session_token rows ≡ (err unauthorized, rows))
            × (confirm_interactive_session jwt table later memo session_token form pay given rows
                ≡ (err unauthorized, rows)))

    -- After the creation of a session, until its token expires the guards of getSessionData and
    -- confirmInteractiveSession pass the row on as it was created, so the session is not over for
    -- them; from then on the token is refused, every request for the data and every confirmation is
    -- unauthorized and changes nothing. So no call before the confirmation stores the status expired.
    -- It is assumed that the session and its token are made at one time.
    pub expired_token-unmarked :
        (lawful : IsSessionTable table) (tokens : IsToken jwt payload_of ttl now)
        (rows : table.Rows) (i : Interactive) (later : ℕ) (memo : String) (form : Json)
        (pay : String) (given : Option String)
        → (creation rows).0 ≡ ok i
        → PassesOrRefuses later memo form pay given (creation rows).1
    unfolding sign_session_token
    expired_token-unmarked lawful tokens rows i later memo form pay given h =
        elim (Option-cases (table.create session_row rows)) [
          | inl none_made ↦ absurd (err_ok (sym (ap (λ x. x.0) (creation-none rows none_made)) ∙ h))
          | inr (rows', made) ↦
              subst (λ x. PassesOrRefuses later memo form pay given x.1)
                (sym (creation-some rows rows' made))
                (elim (Bool-cases (ltb (later / 1_000) (now / 1_000 + ttl))) [
                  | inl early ↦
                      let before : later / 1_000 < now / 1_000 + ttl = ground (arith, early) in
                      inl (
                        before,
                        created-opens tokens rows' later (created-found lawful rows rows' made)
                            before,
                      )
                  | inr late ↦
                      let after : now / 1_000 + ttl ≤ later / 1_000 = ground (arith, late) in
                      let refused =
                        open_session-expired later session_token rows'
                          (tokens.expired later after) in
                      inr (
                        after,
                        get_session_data-open jwt table later session_token rows' (err unauthorized)
                            rows' refused,
                        confirm-open jwt table later memo session_token form pay given rows'
                            (err unauthorized) rows' refused,
                      )
                ])
        ]
