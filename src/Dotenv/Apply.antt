-- ===== src/Dotenv/Apply.antt =====
-- internal/dotenv/dotenv.go, `Apply`: a complete candidate from a document and its changes.
pub mod Surgery
pub mod Contract
use acme_mux.Prelude.{
  ℕ, zero, suc, ◌+◌, Bool, true, false, not, ◌&&◌, ◌||◌, List, [], ◌∷◌, ◌++◌, Option, none, some,
  ltb, leb, ◌==◌, if◌then◌else◌, length, slice, drop, reverse, ok, err, ◌>>=◌, ◌>>◌, reject_if,
}
use acme_mux.Prelude.Bytes.{Bytes, equal, contains, has_byte, bytes_leb}
use acme_mux.Prelude.Sort.{sort}
use acme_mux.Prelude.Utf8.{utf8_valid}
use acme_mux.Dotenv.Types.{
  M, Entry, Document, Action, replace, remove, other, Change, Summary, key_not_allowed,
  invalid_change, value_too_large, too_large, error_of, error_for,
}
use acme_mux.Dotenv.Lines.{has_final_newline, preceding_line_separator}
use acme_mux.Dotenv.Value.{Native, encode_value}
use acme_mux.Dotenv.Document.{find_entry, parse}

pub record Edit : Type 0 where
  pub start : ℕ
  pub end : ℕ
  pub replacement : Bytes

-- What the loop over the changes has collected.
pub record Plan : Type 0 where
  pub seen : List Bytes
  pub edits : List Edit
  pub new_values : List (Bytes × Bytes)
  pub summaries : List Summary

abbrev pub empty_plan : Plan
empty_plan = record { seen = []; edits = []; new_values = []; summaries = [] }

abbrev add_summary : Bytes → Action → Plan → Plan
add_summary key action plan = record plan {
  summaries = plan.summaries ++ (record { key = key; action = action } ∷ []);
}

abbrev add_edit : Edit → Plan → Plan
add_edit edit plan = record plan { edits = plan.edits ++ edit ∷ [] }

-- The edit, or the new value, for an encoded replacement.
unfoldable pub place_value : Option Entry → Bytes → Bytes → Plan → Plan
place_value none key encoded plan =
    add_summary key replace (record plan { new_values = plan.new_values ++ (key, encoded) ∷ [] })
place_value (some e) key encoded plan =
    add_summary key replace
      (add_edit (record { start = e.value_start; end = e.value_end; replacement = encoded }) plan)

unfoldable pub removal : Document → Bytes → Entry → Edit
removal document text e = record {
  start =
      if e.statement_end == length text && not document.final_newline
      then preceding_line_separator text e.statement_start
      else e.statement_start;
  end = e.statement_end;
  replacement = [];
}

unfoldable pub remove_entry : Document → Bytes → Option Entry → Bytes → Plan → Plan
remove_entry document text none key plan = plan
remove_entry document text (some e) key plan =
    add_summary key remove (add_edit (removal document text e) plan)

module _ (godotenv : Native) where
  unfoldable pub replace_value : Document → Change → Plan → M Plan
  replace_value document change plan = do
    reject_if (ltb document.policy.maximum_value_bytes (length change.value))
        (error_for value_too_large change.key)
    reject_if (not (utf8_valid change.value) || has_byte 0 change.value)
        (error_for invalid_change change.key)
    elim (encode_value godotenv change.value) [
      | none ↦ err (error_for invalid_change change.key)
      | some encoded ↦
          ok (place_value (find_entry change.key document.entries) change.key encoded plan)
    ]

  -- The `switch` over the action.
  unfoldable pub act : Action → Document → Bytes → Change → Plan → M Plan
  act replace document text change plan = replace_value document change plan
  act remove document text change plan =
      ok (remove_entry document text (find_entry change.key document.entries) change.key plan)
  act other document text change plan = err (error_for invalid_change change.key)

  unfoldable pub plan_change : Document → Bytes → Change → Plan → M Plan
  plan_change document text change plan = do
    reject_if (not (contains document.allowed change.key)) (error_of key_not_allowed)
    reject_if (contains plan.seen change.key) (error_for invalid_change change.key)
    act change.action document text change (record plan { seen = change.key ∷ plan.seen })

  unfoldable pub plan_changes : Document → Bytes → List Change → Plan → M Plan
  plan_changes document text [] plan = ok plan
  plan_changes document text (change ∷ changes) plan = do
    next ← plan_change document text change plan
    plan_changes document text changes next

abbrev pub edit_leb : Edit → Edit → Bool
edit_leb a b = leb a.start b.start

abbrev is_empty : Bytes → Bool
is_empty [] = true
is_empty (c ∷ cs) = false

-- The loop over the sorted edits; `merged` holds the last edit first.
unfoldable pub merge_edits : List Edit → List Edit → M (List Edit)
merge_edits merged [] = ok (reverse merged)
merge_edits [] (e ∷ es) = merge_edits (e ∷ []) es
merge_edits (p ∷ merged) (e ∷ es) = elim (ltb e.start p.end) [
  | false ↦ merge_edits (e ∷ p ∷ merged) es
  | true ↦ elim (not (is_empty p.replacement) || not (is_empty e.replacement)) [
    | true ↦ err (error_of invalid_change)
    | false ↦ merge_edits (record p { end = if ltb p.end e.end then e.end else p.end } ∷ merged) es
  ]
]

-- The loop that writes the candidate, from the byte behind the last edit.
unfoldable pub write_edits : Bytes → ℕ → List Edit → M Bytes
write_edits text last [] = ok (drop last text)
write_edits text last (e ∷ es) = do
  reject_if (ltb e.start last || ltb e.end e.start || ltb (length text) e.end)
      (error_of invalid_change)
  rest ← write_edits text e.end es
  ok (slice text last e.start ++ (e.replacement ++ rest))

abbrev new_leb : Bytes × Bytes → Bytes × Bytes → Bool
new_leb a b = bytes_leb a.0 b.0

-- The lines of the new keys; the newline behind the last depends on the document's end.
unfoldable pub new_lines : Bytes → Bool → List (Bytes × Bytes) → Bytes
new_lines newline final [] = []
new_lines newline final ((key, value) ∷ []) =
    key ++ (b'=' ∷ (value ++ (if final then newline else [])))
new_lines newline final ((key, value) ∷ (next ∷ rest)) =
    key ++ (b'=' ∷ (value ++ (newline ++ new_lines newline final (next ∷ rest))))

unfoldable pub append_new : Document → Bytes → List (Bytes × Bytes) → Bytes
append_new document contents [] = contents
append_new document contents (v ∷ vs) =
    contents
    ++ ((if not (is_empty contents) && not (has_final_newline contents)
          then document.newline
          else [])
        ++ new_lines document.newline document.final_newline (sort new_leb (v ∷ vs)))

abbrev summary_leb : Summary → Summary → Bool
summary_leb a b = bytes_leb a.key b.key

-- The candidate before its validation.
unfoldable pub candidate : Document → Bytes → Plan → M Bytes
candidate document text plan = do
  edits ← merge_edits [] (sort edit_leb plan.edits)
  contents ← write_edits text 0 edits
  ok (append_new document contents plan.new_values)

module _ (godotenv : Native) where
  unfoldable pub apply_to : Bytes → Document → List Change → M (Bytes × List Summary)
  apply_to text document changes = do
    plan ← plan_changes godotenv document text changes empty_plan
    result ← candidate document text plan
    reject_if (ltb document.policy.maximum_bytes (length result)) (error_of too_large)
    validated ← parse godotenv result document.allowed document.policy
    ok (result, sort summary_leb plan.summaries)

  unfoldable pub apply : Document → List Change → M (Bytes × List Summary)
  apply document changes = elim document.raw [
    | none ↦ err (error_of invalid_change)
    | some text ↦ apply_to text document changes
  ]
