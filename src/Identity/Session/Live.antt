-- ===== src/Identity/Session/Live.antt =====
-- What stands in the tables behind a validation that succeeds.
use mathlib.Core.Path.{subst}
use acme_mux.Prelude.{
  ℕ, ◌≤◌, ◌<◌, Bool, true, false, ◌&&◌, ◌||◌, ◌≡◌, refl, sym, inl, inr, List, [], ◌∷◌, Option, none,
  some, arith, ltb, leb, ◌==◌, ok, if◌then◌else◌, Bool-cases, Option-cases,
}
use acme_mux.Prelude.Bytes.{Bytes}
use acme_mux.Identity.Types.{
  SessionPolicy, Codec, SessionRow, Administrator, Tables, ActiveSession, Call, at_once, epoch_is,
  new_token,
}
use acme_mux.Identity.Session.{
  update_sessions, has_token, load_session, World, effective_now, Verdict, admitted, refused, judge,
  idle_expiry, active_session, seen_at, may_advance, advance, rotated_row, may_rotate, rotate,
  when_admitted, loaded_session, validate_again, validate_hash, matched_current,
}

unfoldable pub any_session : (SessionRow → Bool) → List SessionRow → Bool
any_session test [] = false
any_session test (r ∷ rs) = test r || any_session test rs

-- An update that has changed a row leaves one that was changed.
update_sessions-any :
    (test goal : SessionRow → Bool) (change : SessionRow → SessionRow) (rows : List SessionRow)
    → ((x : SessionRow) → test x ≡ true → goal (change x) ≡ true)
    → 0 < (update_sessions test change rows).0
    → any_session goal (update_sessions test change rows).1 ≡ true
unfolding update_sessions any_session
update_sessions-any test goal change [] fits changed = absurd (omega (arith, changed))
update_sessions-any test goal change (r ∷ rs) fits changed = elim (Bool-cases (test r)) [
  | inl e ↦ let one = fits r e in ground arith
  | inr e ↦ let rest = update_sessions-any test goal change rs fits (ground arith) in ground arith
]

-- A row of the current epoch with this token, seen before its session ends.
abbrev pub live_row : Option Administrator → Bytes → ActiveSession → SessionRow → Bool
live_row a h s x =
    epoch_is a x.auth_epoch
    && has_token h x
    && (x.idle_expires_at == s.idle_expires_at)
    && ltb x.last_seen_at s.absolute_expires_at

abbrev pub IsLive : Bytes → ActiveSession → Tables → Type 0
IsLive h s t =
    (any_session (live_row t.administrator h s) t.sessions ≡ true)
    × (s.idle_expires_at ≤ s.absolute_expires_at)

judge-admitted :
    (now : ℕ) (h : Bytes) (r : SessionRow)
    → judge now h r ≡ admitted
    → (now < r.idle_expires_at) × (now < r.absolute_expires_at)
unfolding judge
judge-admitted now h r e = (ground arith, ground arith)

when_admitted-eq-ok :
    (w : World) (v : Verdict) (next : Call ActiveSession) (t after : Tables) {s : ActiveSession}
    → when_admitted w v next t ≡ (ok s, after)
    → (v ≡ admitted) × (next t ≡ (ok s, after))
when_admitted-eq-ok w (refused e last) next t after h = absurd (ground arith)
when_admitted-eq-ok w admitted next t after h = (refl, h)

-- What goes on behind the load of a session.
loaded_session-eq-ok :
    (w : World) (h : Bytes) (next : SessionRow → ℕ → Call ActiveSession) (t after : Tables)
    {s : ActiveSession}
    → loaded_session w h next t ≡ (ok s, after)
    → (r : SessionRow) × (load_session h t ≡ some r)
      × (effective_now w.now r < r.absolute_expires_at)
      × (next r (effective_now w.now r) (w.between t) ≡ (ok s, after))
loaded_session-eq-ok w h next t after h₀ = elim (Option-cases (load_session h t)) [
  | inl e ↦ absurd (ground arith)
  | inr (r, e) ↦
      let now = effective_now w.now r in
      let (admits, went) =
        when_admitted-eq-ok w (judge now h r) (next r now) (w.between t) after (ground arith) in
      (r, e, (judge-admitted now h r admits).1, went)
]

active_session-eq-ok :
    (replacement : Option Bytes) (idle : ℕ) (r : SessionRow) {s : ActiveSession}
    → active_session replacement idle r ≡ ok s
    → (s.idle_expires_at ≡ idle) × (s.absolute_expires_at ≡ r.absolute_expires_at)
active_session-eq-ok replacement idle r h = (ground arith, ground arith)

advance-IsLive :
    (policy : SessionPolicy) (w : World) (h : Bytes) (r : SessionRow) (now : ℕ) (t after : Tables)
    {s : ActiveSession}
    → now < r.absolute_expires_at
    → advance policy w h r now t ≡ (ok s, after)
    → IsLive h s after
unfolding at_once
advance-IsLive policy w h r now t after {s} early h₀ =
    let idle = idle_expiry policy now r in
    let test = may_advance t.administrator r h now in
    let (n, rows) = update_sessions test (seen_at now idle) t.sessions in
    elim (Bool-cases w.write_fails) [
      | inl e ↦ absurd (ground arith)
      | inr e ↦ elim (Bool-cases (n == 1)) [
        | inr other ↦ absurd (ground arith)
        | inl one ↦
            let given : active_session none idle r ≡ ok s = ground arith in
            let (idle_is, absolute_is) = active_session-eq-ok none idle r given in
            let left : after ≡ record t { sessions = rows } = ground arith in
            let found =
              update_sessions-any test (live_row t.administrator h s) (seen_at now idle) t.sessions
                (λ x fits. ground arith) (ground arith) in
            (
              subst (λ u. any_session (live_row u.administrator h s) u.sessions ≡ true) (sym left)
                  found,
              ground arith,
            )
      ]
    ]

rotate-IsLive :
    (codec : Codec) (policy : SessionPolicy) (w : World) (h : Bytes) (r : SessionRow) (now : ℕ)
    (again : Call ActiveSession) (made : Option (Bytes × Bytes)) (t after : Tables)
    {s : ActiveSession}
    → now < r.absolute_expires_at
    → ((u after : Tables) (s : ActiveSession) → again u ≡ (ok s, after) → IsLive h s after)
    → rotate policy w h r now again made t ≡ (ok s, after)
    → IsLive h s after
unfolding at_once
rotate-IsLive codec policy w h r now again none t after early retry h₀ = absurd (ground arith)
rotate-IsLive codec policy w h r now again (some (token, new_hash)) t after {s} early retry h₀ =
    let idle = idle_expiry policy now r in
    let test = may_rotate t.administrator r h now in
    let (n, rows) = update_sessions test (rotated_row policy new_hash now idle) t.sessions in
    elim (Bool-cases w.write_fails) [
      | inl e ↦ absurd (ground arith)
      | inr e ↦ elim (Bool-cases (n == 1)) [
        | inr other ↦ retry (record t { sessions = rows }) after s (ground arith)
        | inl one ↦
            let given : active_session (some token) idle r ≡ ok s = ground arith in
            let (idle_is, absolute_is) = active_session-eq-ok (some token) idle r given in
            let left : after ≡ record t { sessions = rows } = ground arith in
            let found =
              update_sessions-any test (live_row t.administrator h s)
                (rotated_row policy new_hash now idle) t.sessions (λ x fits. ground arith)
                (ground arith) in
            (
              subst (λ u. any_session (live_row u.administrator h s) u.sessions ≡ true) (sym left)
                  found,
              ground arith,
            )
      ]
    ]

validate_again-IsLive :
    (policy : SessionPolicy) (w : World) (h : Bytes) (t after : Tables) (s : ActiveSession)
    → validate_again policy w h t ≡ (ok s, after)
    → IsLive h s after
unfolding validate_again
validate_again-IsLive policy w h t after s h₀ =
    let (r, _, early, went) = loaded_session-eq-ok w h (advance policy w h) t after h₀ in
    advance-IsLive policy w h r (effective_now w.now r) (w.between t) after early went

-- Whatever other requests do between its statements, a validation that succeeds leaves a session of the
-- epoch of the administrator, with the digest of the token as its current or its previous one, last
-- seen before its absolute end, with the idle end that the validation answers, which is at most the
-- absolute end.
pub validate_hash-IsLive :
    (codec : Codec) (policy : SessionPolicy) (w again : World) (h : Bytes) (t after : Tables)
    (s : ActiveSession)
    → validate_hash codec policy w again h t ≡ (ok s, after)
    → IsLive h s after
unfolding validate_hash
validate_hash-IsLive codec policy w again h t after s h₀ =
    let next : SessionRow → ℕ → Call ActiveSession = λ r now.
      if matched_current r h && leb r.rotate_after now
      then rotate policy w h r now (validate_again policy again h) (new_token codec w.random)
      else advance policy w h r now in
    let (r, _, early, went) = loaded_session-eq-ok w h next t after h₀ in
    let now = effective_now w.now r in
    elim (Bool-cases (matched_current r h && leb r.rotate_after now)) [
      | inl due ↦
          rotate-IsLive codec policy w h r now (validate_again policy again h)
            (new_token codec w.random) (w.between t) after {s = s} early
            (λ u after s. validate_again-IsLive policy again h u after s) (ground arith)
      | inr early_yet ↦
          advance-IsLive policy w h r now (w.between t) after {s = s} early (ground arith)
    ]
