-- ===== src/Sep24/Sessions.antt =====
-- The operations of apps/api/src/anchor/sep24.service.ts on the table of sessions.
use afro_pay_stellar.Prelude.{
  ℕ, min, String, not, Option, none, some, List, map, ltb, str_eq, if◌then◌else◌, bad_request,
  unauthorized, not_found, failure, ok, err, Exec, pure, throw, gets, or_throw, modify, throw_if,
  ◌>>=◌, ◌>>◌,
}
use afro_pay_stellar.Sep24.{
  Kind, is_incomplete, Session, Sep24SessionPayload, Jwt, SessionTable, SessionData, Interactive,
  Confirmed, Sep24Response, if_given, format_transaction, new_session, expired_row, data_of,
  confirmed_row, confirmation,
}

module _ {Json : Type 0} (jwt : Jwt) (table : SessionTable Json) where
  -- `signSessionToken`, and the same call in `createInteractiveSession`
  unfoldable pub sign_session_token : ℕ → ℕ → Sep24SessionPayload → String
  sign_session_token ttl now payload = jwt.sign payload ttl now

  unfoldable pub verify_session_token : ℕ → String → Exec table.Rows Sep24SessionPayload
  verify_session_token now token = or_throw (jwt.verify token now) unauthorized

  abbrev pub created : Option table.Rows → Session Json → Exec table.Rows (Session Json)
  created none row rows = (err failure, rows)
  created (some rows') row rows = (ok row, rows')

  abbrev pub create_row : Session Json → Exec table.Rows (Session Json)
  create_row row rows = created (table.create row rows) row rows

  -- `tx_id` goes into the token; `row_id` is the identifier that the database draws.
  unfoldable pub create_interactive_session :
      (String → String)
      → ℕ
      → ℕ
      → String
      → String
      → String
      → Kind
      → String
      → Option String
      → Option String
      → Exec table.Rows Interactive
  unfolding sign_session_token
  create_interactive_session url_of ttl now tx_id row_id account kind asset_code asset_issuer
        amount =
      let payload : Sep24SessionPayload = record {
        tx_id = tx_id;
        account = account;
        kind = kind;
      } in
      let token = sign_session_token ttl now payload in
      do
        tx ←
            create_row
              (new_session row_id now ttl account kind asset_code asset_issuer amount token)
        pure (record { url = url_of token; id = tx.id })

  -- The guards that `getSessionData` and `confirmInteractiveSession` share.
  unfoldable pub open_session : ℕ → String → Exec table.Rows (Session Json)
  unfolding verify_session_token
  open_session now token = do
    verify_session_token now token
    found ← gets (table.find_token token)
    tx ← or_throw found not_found
    throw_if (not (is_incomplete tx.status)) bad_request
    (if ltb tx.session_expires_at now
        then (modify (table.write (expired_row now tx)) >> throw bad_request)
        else pure tx)

  unfoldable pub get_session_data : ℕ → String → Exec table.Rows SessionData
  unfolding open_session
  get_session_data now token = do tx ← open_session now token; pure (data_of tx)

  -- The update after the guards, on the row as it was read.
  unfoldable pub confirm_row :
      ℕ → String → Json → String → Option String → Session Json → Exec table.Rows Confirmed
  confirm_row now memo kyc_data payment_method amount tx =
      let updated = confirmed_row now memo kyc_data payment_method amount tx in
      do modify (table.write updated); pure (confirmation updated)

  unfoldable pub confirm_interactive_session :
      ℕ → String → String → Json → String → Option String → Exec table.Rows Confirmed
  unfolding open_session confirm_row
  confirm_interactive_session now memo token kyc_data payment_method amount = do
    tx ← open_session now token
    confirm_row now memo kyc_data payment_method amount tx

  unfoldable pub get_transaction_by_id : String → String → Exec table.Rows Sep24Response
  unfolding format_transaction
  get_transaction_by_id id account = do
    found ← gets (table.find_id id)
    tx ← or_throw found not_found
    throw_if (not (str_eq tx.stellar_account account)) not_found
    pure (format_transaction tx)

  -- `where` with the filters that are given, the newest first, at most 100.
  unfoldable pub get_transactions_by_account :
      String → Option String → Option String → ℕ → Exec table.Rows (List Sep24Response)
  unfolding format_transaction
  get_transactions_by_account account asset_code kind limit = gets (λ rows. map format_transaction (
      table.find_many
        (record { by_account = account; by_asset = if_given asset_code; by_kind = if_given kind })
        (min limit 100) rows))
