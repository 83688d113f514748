-- ===== src/Dotenv/Apply/Contract.antt =====
-- What a successful `Apply` guarantees to its caller.
use acme_mux.Prelude.{
  true, false, not, length, ◌⊎◌, ◌≡◌, ap, ◌∙◌, List, [], ◌∷◌, ◌++◌, some, arith, All, take, drop,
  ok, bind-eq-ok, guard-eq-ok,
}
use mathlib.Core.Path.{subst}
use acme_mux.Prelude.Bytes.{Bytes, equal, equal_of_seen, contains, contains_more, contains_head}
use acme_mux.Prelude.Sort.{sort, insert}
use acme_mux.Dotenv.Lines.Separator.{IsSeparator, NoneBefore}
use acme_mux.Dotenv.Types.{
  Entry, Document, Action, replace, remove, other, Change, Summary, key_not_allowed, invalid_change,
  error_of, error_for,
}
use acme_mux.Dotenv.Value.{Native, encode_value}
use acme_mux.Dotenv.Document.{find_entry, parse}
use acme_mux.Dotenv.Document.WellFormed.{IsWellFormed, parse-IsWellFormed}
use acme_mux.Dotenv.Apply.{
  Plan, empty_plan, place_value, remove_entry, replace_value, act, plan_change, plan_changes,
  summary_leb, apply,
}
use acme_mux.Dotenv.Apply.Surgery.{apply-Applied, candidate_one, replacing, planned_replace}

-- A key that occurs in none of the changes.
abbrev pub Untouched : Bytes → List Change → Type 0
Untouched key changes = All (λ (c : Change). equal key c.key ≡ false) changes

-- Every change is to an allowed key, and no two are to one key.
abbrev pub AllowedOnce : List Bytes → List Change → Type 0
AllowedOnce allowed [] = Unit
AllowedOnce allowed (c ∷ cs) =
    (contains allowed c.key ≡ true) × Untouched c.key cs × AllowedOnce allowed cs

module _ (godotenv : Native) where
  act-seen :
      (action : Action) (document : Document) (text : Bytes) (change : Change) (plan next : Plan)
      → act godotenv action document text change plan ≡ ok next
      → next.seen ≡ plan.seen
  unfolding act replace_value remove_entry place_value
  act-seen replace document text change plan next h = ground arith
  act-seen remove document text change plan next h = ground arith
  act-seen other document text change plan next h = ground arith

  plan_change_lem :
      (document : Document) (text : Bytes) (change : Change) (plan next : Plan)
      → plan_change godotenv document text change plan ≡ ok next
      → (contains document.allowed change.key ≡ true)
        × (contains plan.seen change.key ≡ false)
        × (next.seen ≡ change.key ∷ plan.seen)
  unfolding plan_change
  plan_change_lem document text change plan next h =
      let (allowed, h₁) =
        guard-eq-ok (not (contains document.allowed change.key)) (error_of key_not_allowed) _ h in
      let (fresh, h₂) =
        guard-eq-ok (contains plan.seen change.key) (error_for invalid_change change.key) _ h₁ in
      (ground arith, fresh, act-seen change.action document text change _ next h₂)

  plan_changes_unseen :
      (document : Document) (text key : Bytes) (changes : List Change) (plan out : Plan)
      → contains plan.seen key ≡ true
      → plan_changes godotenv document text changes plan ≡ ok out
      → Untouched key changes
  unfolding plan_changes
  plan_changes_unseen document text key [] plan out seen h = tt
  plan_changes_unseen document text key (c ∷ cs) plan out seen h =
      let (next, step, rest) = bind-eq-ok (plan_change godotenv document text c plan) _ h in
      let (_, fresh, grown) = plan_change_lem document text c plan next step in
      (
        equal_of_seen plan.seen key c.key seen fresh,
        plan_changes_unseen document text key cs next out
            (rw grown (contains_more plan.seen c.key key seen)) rest,
      )

  plan_changes-AllowedOnce :
      (document : Document) (text : Bytes) (changes : List Change) (plan out : Plan)
      → plan_changes godotenv document text changes plan ≡ ok out
      → AllowedOnce document.allowed changes
  unfolding plan_changes
  plan_changes-AllowedOnce document text [] plan out h = tt
  plan_changes-AllowedOnce document text (c ∷ cs) plan out h =
      let (next, step, rest) = bind-eq-ok (plan_change godotenv document text c plan) _ h in
      let (allowed, fresh, grown) = plan_change_lem document text c plan next step in
      (
        allowed,
        plan_changes_unseen document text c.key cs next out
            (rw grown (contains_head plan.seen c.key)) rest,
        plan_changes-AllowedOnce document text cs next out rest,
      )

module _ (godotenv : Native) where
  -- A successful `Apply` was given allowed keys only, each once.
  pub apply-AllowedOnce :
      (document : Document) (changes : List Change) (result : Bytes) (summaries : List Summary)
      → apply godotenv document changes ≡ ok (result, summaries)
      → AllowedOnce document.allowed changes
  apply-AllowedOnce document changes result summaries h =
      let a = apply-Applied godotenv document changes result summaries h in
      plan_changes-AllowedOnce godotenv document a.text changes empty_plan a.plan a.planned

  -- The result of a successful Apply parses under the same keys and policy, as a well-formed
  -- document.
  pub apply-IsWellFormed :
      (document : Document) (changes : List Change) (result : Bytes) (summaries : List Summary)
      → apply godotenv document changes ≡ ok (result, summaries)
      → (parsed : Document) × (parse godotenv result document.allowed document.policy ≡ ok parsed)
        × IsWellFormed result document.allowed parsed
  apply-IsWellFormed document changes result summaries h =
      let a = apply-Applied godotenv document changes result summaries h in
      (
        a.parsed,
        a.parses,
        parse-IsWellFormed godotenv result document.allowed document.policy a.parsed a.parses,
      )

  -- Apply with one replacement of a present key writes the encoded value over its span and keeps
  -- every other byte.
  pub apply_replace :
      (document : Document) (text key value : Bytes) (e : Entry) (result : Bytes)
      (summaries : List Summary)
      → document.raw ≡ some text
      → find_entry key document.entries ≡ some e
      → apply godotenv document (replacing key value) ≡ ok (result, summaries)
      → (encoded : Bytes) × (encode_value godotenv value ≡ some encoded)
        × (result ≡ take e.value_start text ++ (encoded ++ drop e.value_end text))
        × (summaries ≡ (record { key = key; action = replace }) ∷ [])
  unfolding sort insert
  apply_replace document text key value e result summaries raw found h =
      let a = apply-Applied godotenv document _ result summaries h in
      let (encoded, is, edits, new, sums) =
        planned_replace godotenv document key value a.text e a.plan found a.planned in
      let same : a.text ≡ text = cc (raw, a.raw_is) in
      let wrote = candidate_one document a.text a.plan _ result edits new a.candidate_is in
      (
        encoded,
        is,
        subst (λ t. result ≡ take e.value_start t ++ (encoded ++ drop e.value_end t)) same wrote.0,
        a.summaries_are ∙ ap (sort summary_leb) sums,
      )

  -- Whether the statement is the last of a text with no final newline.
  abbrev pub IsUnended : Document → Bytes → Entry → Type 0
  IsUnended document text e = (e.statement_end ≡ length text) × (document.final_newline ≡ false)

  -- What goes away before the statement: nothing, or, before the last statement of a text with no final
  -- newline, the line separator that stands there, if there is one.
  abbrev pub GoesWith : Document → Bytes → Entry → Bytes → Type 0
  GoesWith document text e separator =
      ((separator ≡ []) × ¬ IsUnended document text e)
      ⊎ (IsUnended document text e
          × (IsSeparator separator ⊎ ((separator ≡ []) × NoneBefore text e.statement_start)))
