-- ===== src/Identity/Service/Created.antt =====
-- The transaction behind a sign-in that succeeds.
use acme_mux.Prelude.{
  ℕ, Bool, ◌≡◌, refl, ap, inl, inr, List, Option, arith, ok, Option-cases, Result-cases, ◌∙◌,
}
use acme_mux.Prelude.Bytes.{Bytes}
use acme_mux.Prelude.Time.{Instant}
use acme_mux.Prelude.Transaction.{Session, transact}
use acme_mux.Prelude.Transaction.Laws.{transact-eq-ok}
use acme_mux.Identity.Types.{
  failure, SessionPolicy, Codec, SessionRow, Administrator, Tables, SessionGrant, new_token,
}
use acme_mux.Identity.Service.{new_session, create_body, granted, create_session}

pub create_session-ran :
    (codec : Codec) (policy : SessionPolicy) (script : List Bool) (raw raw_csrf : Option Bytes)
    (now : Instant) (a : Administrator) (replacement : Bytes) (t after : Tables) {g : SessionGrant}
    → create_session codec policy script raw raw_csrf now a replacement t ≡ (ok g, after)
    → (row : ℕ → SessionRow) × (s : Session Tables) × (u : Session Tables) × ((id : ℕ)
        → (row id).id ≡ id)
      × (s.tables ≡ t)
      × (create_body policy now a replacement row s ≡ ok (tt, u))
      × (u.tables ≡ after)
unfolding create_session
create_session-ran codec policy script raw raw_csrf now a replacement t after {g} h =
    elim (Option-cases (new_token codec raw)) [
      | inl e ↦ absurd (ground arith)
      | inr ((token, hash), e) ↦ elim (Option-cases (new_token codec raw_csrf)) [
        | inl e' ↦ absurd (ground arith)
        | inr ((csrf, csrf_hash), e') ↦
            let row = new_session policy hash csrf_hash now a.auth_epoch in
            let body = create_body policy now a replacement row in
            let went : granted policy now token csrf (transact failure script body t)
                ≡ (ok g, after) =
              ground arith in
            elim (Result-cases (transact failure script body t).0) [
              | inr (x, failed) ↦ absurd (ground arith)
              | inl (done, e₀) ↦
                  let left = (transact failure script body t).1 in
                  let (s, u, at_s, ran, at_u) =
                    transact-eq-ok failure script body t left (ap (λ r. (r, left)) e₀) in
                  let same : left ≡ after = ground arith in
                  (row, s, u, λ id. refl, at_s, ran, at_u ∙ same)
            ]
      ]
    ]
