-- ===== src/Dotenv/Apply/Surgery.antt =====
-- `Apply` on a parsed document: nothing changed, one value replaced, one statement removed.
use acme_mux.Prelude.{
  inl, inr, ◌-◌, ◌≤◌, ◌≡◌, sym, ap, ◌∙◌, List, [], ◌∷◌, ◌++◌, some, arith, ltb, length, take, drop,
  Option-cases, ok, bind-eq-ok, guard-eq-ok, ok-injective,
}
use mathlib.Core.Path.{subst}
use acme_mux.Prelude.Bytes.{Bytes}
use acme_mux.Prelude.Sort.{sort, insert}
use acme_mux.Dotenv.Types.{
  Policy, Entry, Document, replace, remove, Change, Summary, too_large, error_of,
}
use acme_mux.Dotenv.Value.{Native, encode_value}
use acme_mux.Dotenv.Document.{find_entry, parse}
use acme_mux.Dotenv.Document.WellFormed.{parse-IsWellFormed, parse_again}
use acme_mux.Dotenv.Apply.{
  Edit, Plan, empty_plan, place_value, removal, remove_entry, replace_value, act, plan_change,
  plan_changes, merge_edits, write_edits, append_new, candidate, summary_leb, apply_to, apply,
}

module _ (godotenv : Native) where
  apply_raw :
      (text : Bytes) (document : Document) (changes : List Change)
      → document.raw ≡ some text
      → apply godotenv document changes ≡ apply_to godotenv text document changes
  unfolding apply
  apply_raw text document changes h = ground arith

  -- Parsing a text and applying no change gives the text back, byte for byte, and no summary.
  pub apply_nothing :
      (text : Bytes) (keys : List Bytes) (policy : Policy) (document : Document)
      → parse godotenv text keys policy ≡ ok document
      → apply godotenv document [] ≡ ok (text, [])
  unfolding apply_to plan_changes candidate merge_edits write_edits append_new sort
  apply_nothing text keys policy document h =
      let wf = parse-IsWellFormed godotenv text keys policy document h in
      let again = parse_again godotenv text keys policy document h in
      apply_raw text document [] wf.raw_is ∙ ground (arith, wf.size-le)

  -- What is left of a successful `Apply`: its plan, the candidate, and that this parses.
  pub record Applied (document : Document) (changes : List Change) (result : Bytes)
      (summaries : List Summary) : Type 0 where
    pub text : Bytes
    pub plan : Plan
    pub parsed : Document
    pub raw_is : document.raw ≡ some text
    pub planned : plan_changes godotenv document text changes empty_plan ≡ ok plan
    pub candidate_is : candidate document text plan ≡ ok result
    pub size-le : length result ≤ document.policy.maximum_bytes
    pub parses : parse godotenv result document.allowed document.policy ≡ ok parsed
    pub summaries_are : summaries ≡ sort summary_leb plan.summaries

  pub apply-Applied :
      (document : Document) (changes : List Change) (result : Bytes) (summaries : List Summary)
      → apply godotenv document changes ≡ ok (result, summaries)
      → Applied document changes result summaries
  unfolding apply_to
  apply-Applied document changes result summaries h = elim (Option-cases document.raw) [
    | inl cleared ↦ absurd (unfold apply in ground arith)
    | inr (text, raw_is) ↦
        let h₀ : apply_to godotenv text document changes ≡ ok (result, summaries) =
          sym (apply_raw text document changes raw_is) ∙ h in
        let (plan, planned, h₁) =
          bind-eq-ok (plan_changes godotenv document text changes empty_plan) _ h₀ in
        let (out, candidate_is, h₂) = bind-eq-ok (candidate document text plan) _ h₁ in
        let (size, h₃) =
          guard-eq-ok (ltb document.policy.maximum_bytes (length out)) (error_of too_large) _ h₂ in
        let (parsed, parses, h₄) =
          bind-eq-ok (parse godotenv out document.allowed document.policy) _ h₃ in
        let same = ok-injective h₄ in
        record {
          text = text;
          plan = plan;
          parsed = parsed;
          raw_is = raw_is;
          planned = planned;
          candidate_is = candidate_is ∙ ap (λ r. ok r.0) same;
          size-le = ground arith;
          parses =
              subst (λ r. parse godotenv r.0 document.allowed document.policy ≡ ok parsed) same
                parses;
          summaries_are = sym (ap (λ r. r.1) same);
        }
  ]

-- The candidate of a plan with one edit and no new value.
pub candidate_one :
    (document : Document) (text : Bytes) (plan : Plan) (edit : Edit) (result : Bytes)
    → plan.edits ≡ edit ∷ []
    → plan.new_values ≡ []
    → candidate document text plan ≡ ok result
    → (result ≡ take edit.start text ++ (edit.replacement ++ drop edit.end text))
      × (edit.start ≤ edit.end)
      × (edit.end ≤ length text)
unfolding candidate sort insert merge_edits write_edits append_new
candidate_one document text plan edit result edits new h =
    let start_is : edit.start - 0 ≡ edit.start = omega arith in ground (arith, start_is)

abbrev pub replacing : Bytes → Bytes → List Change
replacing key value = (record { key = key; action = replace; value = value }) ∷ []

abbrev pub removing : Bytes → List Change
removing key = (record { key = key; action = remove; value = [] }) ∷ []

module _ (godotenv : Native) (document : Document) (key value : Bytes) where
  pub planned_replace :
      (text : Bytes) (e : Entry) (plan : Plan)
      → find_entry key document.entries ≡ some e
      → plan_changes godotenv document text (replacing key value) empty_plan ≡ ok plan
      → (encoded : Bytes) × (encode_value godotenv value ≡ some encoded)
        × (plan.edits
            ≡ (record { start = e.value_start; end = e.value_end; replacement = encoded }) ∷ [])
        × (plan.new_values ≡ [])
        × (plan.summaries ≡ (record { key = key; action = replace }) ∷ [])
  unfolding plan_changes plan_change act replace_value place_value
  planned_replace text e plan found h = elim (Option-cases (encode_value godotenv value)) [
    | inl failed ↦ absurd (ground arith)
    | inr (encoded, is) ↦ (encoded, is, ground arith, ground arith, ground arith)
  ]

  pub planned_remove :
      (text : Bytes) (e : Entry) (plan : Plan)
      → find_entry key document.entries ≡ some e
      → plan_changes godotenv document text (removing key) empty_plan ≡ ok plan
      → (plan.edits ≡ removal document text e ∷ [])
        × (plan.new_values ≡ [])
        × (plan.summaries ≡ (record { key = key; action = remove }) ∷ [])
  unfolding plan_changes plan_change act remove_entry
  planned_remove text e plan found h = ground arith
