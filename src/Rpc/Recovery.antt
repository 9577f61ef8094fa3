-- ===== src/Rpc/Recovery.antt =====
-- `refreshHealth` of apps/api/src/soroban/rpc-client.service.ts as the way back into service.
use afro_pay_stellar.Prelude.{
  ℕ, String, true≢false, ◌≡◌, refl, sym, subst, ◌∙◌, false, List, [], ◌∷◌, All, All-map, Bool-cases,
  ◌⊎◌, inl, inr, str_eq, str_eq_iff,
}
use afro_pay_stellar.Rpc.{
  Kind, soroban, horizon, healthy, Numbers, Endpoint, Config, Reply, replied, Router, of_kind,
  mark_success, update, alert_with, alert_if_all_degraded,
}
use afro_pay_stellar.Rpc.Calls.{polled, poll_endpoint, poll_all, refresh_health}

module _ {N : Type 0} where
  abbrev HasEndpoint : String → List (Endpoint N) → Type 0
  HasEndpoint id [] = ⊥
  HasEndpoint id (e ∷ es) = (e.id ≡ id) ⊎ HasEndpoint id es

  -- Polled already with success, or still to be polled.
  abbrev Pending : List (Endpoint N) → Endpoint N → Type 0
  Pending es x = (x.status ≡ healthy) ⊎ HasEndpoint x.id es

  Pending-more :
      (e : Endpoint N) (es : List (Endpoint N)) (x : Endpoint N) → Pending es x → Pending (e ∷ es) x
  Pending-more e es x (inl h) = inl h
  Pending-more e es x (inr h) = inr (inr h)

  Pending-self : (es : List (Endpoint N)) → All (Pending es) es
  Pending-self [] = tt
  Pending-self (e ∷ es) = (inr (inl refl), All-map (Pending-more e es) es (Pending-self es))

  Pending-none : (x : Endpoint N) → Pending [] x → x.status ≡ healthy
  Pending-none x (inl h) = h
  Pending-none x (inr h) = elim h [ ]

  polled-healthy :
      (config : Config) (now elapsed height : ℕ) (reply : Reply ℕ) (e : Endpoint N)
      → reply ≡ replied height
      → (polled config now elapsed reply e).status ≡ healthy
  unfolding mark_success
  polled-healthy config now elapsed height reply e h = rw h refl

  Pending-miss :
      (id : String) (e : Endpoint N) (es : List (Endpoint N)) (x : Endpoint N)
      → e.id ≡ id
      → str_eq x.id id ≡ false
      → Pending (e ∷ es) x
      → Pending es x
  Pending-miss id e es x same miss (inl h) = inl h
  Pending-miss id e es x same miss (inr (inl h)) =
      let hit = (str_eq_iff x.id id).1 (sym h ∙ same) in absurd (true≢false (sym hit ∙ miss))
  Pending-miss id e es x same miss (inr (inr h)) = inr h

  All-polled :
      (id : String) (f : Endpoint N → Endpoint N) (e : Endpoint N) (es xs : List (Endpoint N))
      → e.id ≡ id
      → ((x : Endpoint N) → (f x).status ≡ healthy)
      → All (Pending (e ∷ es)) xs
      → All (Pending es) (update id f xs)
  All-polled id f e es [] same heals h = tt
  All-polled id f e es (x ∷ xs) same heals h = (
    elim (Bool-cases (str_eq x.id id)) [
      | inl hit ↦ rw hit (inl (heals x))
      | inr miss ↦ rw miss (Pending-miss id e es x same miss h.0)
    ],
    All-polled id f e es xs same heals h.1,
  )

module _ {N App : Type 0} (num : Numbers N) (config : Config)
    (fetch_ledger : Endpoint N → App → (Reply ℕ × ℕ) × App)
    (replies : (e : Endpoint N) (app : App)
      → (height : ℕ) × ((fetch_ledger e app).0.0 ≡ replied height)) where
  poll_all-heals :
      (es : List (Endpoint N)) (w : Router N App)
      → All (Pending es) w.endpoints
      → All (λ x. x.status ≡ healthy) (poll_all num config fetch_ledger es w).endpoints
  unfolding poll_all poll_endpoint
  poll_all-heals [] w h = All-map Pending-none w.endpoints h
  poll_all-heals (e ∷ es) w h = poll_all-heals es (poll_endpoint num config fetch_ledger e w) (
      All-polled e.id _ e es w.endpoints refl
        (λ x.
          polled-healthy config _ _ (replies e w.app).0 (fetch_ledger e w.app).0.0 x
            (replies e w.app).1)
        h)

  alert-endpoints :
      (kind : Kind) (es : List (Endpoint N)) (w : Router N App)
      → (alert_with config kind es w).endpoints ≡ w.endpoints
  alert-endpoints kind [] w = refl
  alert-endpoints kind (e ∷ es) w = refl

  alert_if-endpoints :
      (kind : Kind) (w : Router N App)
      → (alert_if_all_degraded config kind w).endpoints ≡ w.endpoints
  unfolding alert_if_all_degraded
  alert_if-endpoints kind w = alert-endpoints kind (of_kind kind w.endpoints) w

  -- After one round of polls in which every node replies, every endpoint is healthy, whatever its
  -- status, its failures and the rest of its cool-down were.
  pub refresh_health-heals :
      (w : Router N App)
      → All (λ x. x.status ≡ healthy) (refresh_health num config fetch_ledger w).endpoints
  unfolding refresh_health
  refresh_health-heals w =
      let polls = poll_all num config fetch_ledger w.endpoints w in
      subst (All (λ x. x.status ≡ healthy))
        (sym (
          alert_if-endpoints horizon (alert_if_all_degraded config soroban polls)
          ∙ alert_if-endpoints soroban polls))
        (poll_all-heals w.endpoints w (Pending-self w.endpoints))
