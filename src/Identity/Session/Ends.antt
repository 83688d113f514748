-- ===== src/Identity/Session/Ends.antt =====
-- What a validation finds where no session has the token.
use acme_mux.Prelude.{
  Bool, false, ◌≡◌, refl, inl, inr, List, [], ◌∷◌, Option, none, some, arith, ok, err, Option-cases,
}
use acme_mux.Prelude.Bytes.{Bytes}
use acme_mux.Identity.Types.{
  invalid_session, SessionPolicy, Codec, SessionRow, Administrator, Tables, at_once, decode_token,
}
use acme_mux.Identity.Session.{
  delete_sessions, has_token, find_session, World, validate_hash, validate_session, logout,
}
use acme_mux.Identity.Session.Live.{any_session}

deleted-any :
    (test : SessionRow → Bool) (rows : List SessionRow)
    → any_session test (delete_sessions test rows) ≡ false
unfolding any_session delete_sessions
deleted-any test [] = refl
deleted-any test (r ∷ rs) = let rest = deleted-any test rs in ground arith

find_session-none :
    (h : Bytes) (a : Option Administrator) (rows : List SessionRow)
    → any_session (has_token h) rows ≡ false
    → find_session h a rows ≡ none
unfolding any_session find_session
find_session-none h a [] e = refl
find_session-none h a (r ∷ rs) e =
    let rest = find_session-none h a rs (ground arith) in ground arith

-- Where no session has the token a validation whose load does not fail refuses it.
pub validate_session_refuses :
    (codec : Codec) (policy : SessionPolicy) (w again : World) (raw : Bytes) (t : Tables)
    → w.load_fails ≡ false
    → ((h : Bytes) → decode_token codec raw ≡ some h → any_session (has_token h) t.sessions ≡ false)
    → validate_session codec policy w again raw t ≡ (err invalid_session, t)
unfolding validate_session validate_hash
validate_session_refuses codec policy w again raw t loads none_has =
    elim (Option-cases (decode_token codec raw)) [
      | inl e ↦ ground arith
      | inr (h, e) ↦
          let found = find_session-none h t.administrator t.sessions (none_has h e) in ground arith
    ]

-- Behind a logout that succeeds, a validation of the same token whose load does not fail answers
-- `ErrInvalidSession` and changes nothing.
pub logout-validate_session :
    (codec : Codec) (policy : SessionPolicy) (fails : Bool) (w again : World) (raw : Bytes)
    (t after : Tables)
    → logout codec fails raw t ≡ (ok tt, after)
    → w.load_fails ≡ false
    → validate_session codec policy w again raw after ≡ (err invalid_session, after)
unfolding logout at_once
logout-validate_session codec policy fails w again raw t after out loads =
    validate_session_refuses codec policy w again raw after loads
      λ h e. let gone = deleted-any (has_token h) t.sessions in ground arith
