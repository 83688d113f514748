-- ===== src/Dotenv/Scan/Keys.antt =====
-- The keys that a scan records, in its entries and apart from them.
use acme_mux.Prelude.{
  ℕ, Bool, true, false, ◌≡◌, inl, inr, List, [], ◌∷◌, ◌++◌, some, arith, All, All-append, get_elem?,
  get_elem?-lt, ok, Bool-cases,
}
use mathlib.Core.Path.{subst}
use acme_mux.Prelude.Bytes.{Bytes, equal, equal_of_seen, contains, contains_more, contains_head}
use acme_mux.Dotenv.Types.{Entry}
use acme_mux.Dotenv.Scan.{
  Scan, Scanned, valid_source_key, record_statement, scan_round, empty_scan, scan_fuel,
  scan_entries,
}
use acme_mux.Dotenv.Scan.Rounds.{scan_round_cases, scan_loop_inv}
use acme_mux.Dotenv.Scan.Spans.{scan_entries_inv}

-- No two entries have one key.
abbrev pub DistinctKeys : List Entry → Type 0
DistinctKeys [] = Unit
DistinctKeys (e ∷ es) = All (λ (f : Entry). equal e.key f.key ≡ false) es × DistinctKeys es

abbrev pub Managed : List Bytes → Entry → Type 0
Managed allowed e = (contains allowed e.key ≡ true) × (valid_source_key e.key ≡ true)

abbrev pub Unmanaged : List Bytes → Bytes → Type 0
Unmanaged allowed key = contains allowed key ≡ false

record KeyInv (allowed : List Bytes) (scan : Scan) : Type 0 where
  managed : All (Managed allowed) scan.entries
  unmanaged : All (Unmanaged allowed) scan.unsupported_set
  noted : All (λ (e : Entry). contains scan.seen e.key ≡ true) scan.entries
  distinct : DistinctKeys scan.entries

noted_more :
    (seen : List Bytes) (key : Bytes) (es : List Entry)
    → All (λ (e : Entry). contains seen e.key ≡ true) es
    → All (λ (e : Entry). contains (key ∷ seen) e.key ≡ true) es
noted_more seen key [] h = tt
noted_more seen key (e ∷ es) (h, t) = (contains_more seen key e.key h, noted_more seen key es t)

DistinctKeys-concat :
    (seen : List Bytes) (es : List Entry) (entry : Entry)
    → contains seen entry.key ≡ false
    → All (λ (e : Entry). contains seen e.key ≡ true) es
    → DistinctKeys es
    → DistinctKeys (es ++ entry ∷ [])
DistinctKeys-concat seen [] entry fresh noted d = (tt, tt)
DistinctKeys-concat seen (x ∷ es) entry fresh (n, noted) (x_fresh, d) = (
  All-append (λ (f : Entry). equal x.key f.key ≡ false) es (entry ∷ []) x_fresh
      (equal_of_seen seen x.key entry.key n fresh, tt),
  DistinctKeys-concat seen es entry fresh noted d,
)

record_statement-KeyInv :
    (allowed : List Bytes) (entry : Entry) (expansion : Bool) (scan scan' : Scan)
    → contains scan.seen entry.key ≡ false
    → valid_source_key entry.key ≡ true
    → KeyInv allowed scan
    → record_statement allowed entry expansion scan ≡ ok scan'
    → KeyInv allowed scan'
unfolding record_statement
record_statement-KeyInv allowed entry expansion scan scan' fresh valid inv e =
    elim (Bool-cases (contains allowed entry.key)) [
      | inl managed ↦ elim (Bool-cases expansion) [
        | inl expands ↦ absurd (ground arith)
        | inr plain ↦
            let is : (record scan {
              entries = scan.entries ++ entry ∷ [];
              seen = entry.key ∷ scan.seen;
            })
                ≡ scan' =
              ground arith in
            subst (KeyInv allowed) is (record {
              managed =
                  All-append (Managed allowed) scan.entries (entry ∷ []) inv.managed
                    ((managed, valid), tt);
              unmanaged = inv.unmanaged;
              noted =
                  All-append _ scan.entries (entry ∷ [])
                    (noted_more scan.seen entry.key scan.entries inv.noted)
                    (contains_head scan.seen entry.key, tt);
              distinct =
                  DistinctKeys-concat scan.seen scan.entries entry fresh inv.noted inv.distinct;
            })
      ]
      | inr unmanaged ↦
          let is : (record scan {
            seen = entry.key ∷ scan.seen;
            unsupported_set = entry.key ∷ scan.unsupported_set;
          })
              ≡ scan' =
            ground arith in
          subst (KeyInv allowed) is (record {
            managed = inv.managed;
            unmanaged = (unmanaged, inv.unmanaged);
            noted = noted_more scan.seen entry.key scan.entries inv.noted;
            distinct = inv.distinct;
          })
    ]

round-KeyInv :
    (text : Bytes) (allowed : List Bytes) (position start c next : ℕ) (scan scan' : Scan)
    → KeyInv allowed scan
    → get_elem? text start ≡ some c
    → scan_round text allowed start c scan ≡ ok (next, scan')
    → KeyInv allowed scan'
round-KeyInv text allowed position start c next scan scan' inv at e =
    elim (scan_round_cases text allowed start c scan next scan' (get_elem?-lt text start at) e) [
      | inl (same, _) ↦ rw same inv
      | inr r ↦
          record_statement-KeyInv allowed r.entry r.expansion scan scan' r.fresh r.valid inv
            r.recorded
    ]

-- Every entry of a successful scan is managed and has a valid key, and no key has two.
pub scan_entries-Managed :
    (text : Bytes) (allowed : List Bytes) (out : Scanned)
    → scan_entries text allowed ≡ ok out
    → All (Managed allowed) out.entries × DistinctKeys out.entries
scan_entries-Managed text allowed out e =
    let (scan, ends, is) = scan_entries_inv text allowed out e in
    let (last, inv) =
      scan_loop_inv text allowed (λ _ scan. KeyInv allowed scan)
        (λ position start c next scan scan' inv le at e.
          round-KeyInv text allowed position start c next scan scan' inv at e)
        (scan_fuel text) 0 empty_scan scan
        (record { managed = tt; unmanaged = tt; noted = tt; distinct = tt }) ends in
    let same : scan.entries ≡ out.entries = ground arith in
    (subst (All (Managed allowed)) same inv.managed, subst DistinctKeys same inv.distinct)
