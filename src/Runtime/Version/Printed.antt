-- ===== src/Runtime/Version/Printed.antt =====
-- What a parsed version says of the text that it was parsed from.
use acme_mux.Prelude.{
  ℕ, ◌-◌, true, ◌≡◌, refl, sym, ap, ◌∙◌, ◌⊎◌, inl, inr, List, [], ◌∷◌, ◌++◌, some, ◌==◌, length,
  take, drop, take-append-drop, arith, Bool-cases, Option-cases,
}
use acme_mux.Prelude.Bytes.{Bytes, equal_iff}
use acme_mux.Runtime.Version.{
  VersionKind, VersionIdentity, Platform, Version, push, split_at, last_is, is_revision, without_v,
  three_numbers, release_match, release_of, identity_of, version_prefix, platform_fields,
  version_fields, parse_line, parse_version_output, is_platform,
}

-- The pieces with a byte between them.
unfoldable pub join_with : ℕ → List Bytes → Bytes
join_with c [] = []
join_with c (x ∷ []) = x
join_with c (x ∷ (y ∷ ys)) = x ++ c ∷ join_with c (y ∷ ys)

join_with-push :
    (c b : ℕ) (x : Bytes) (xs : List Bytes)
    → join_with c (push b (x ∷ xs)) ≡ b ∷ join_with c (x ∷ xs)
unfolding join_with
join_with-push c b x [] = refl
join_with-push c b x (y ∷ ys) = refl

-- A split text has a piece.
split_at-cons : (c : ℕ) (bs : Bytes) → (x : Bytes) × (xs : List Bytes) × (split_at c bs ≡ x ∷ xs)
unfolding split_at
split_at-cons c [] = ([], [], refl)
split_at-cons c (b ∷ bs) =
    let (x, xs, e) = split_at-cons c bs in
    elim (Bool-cases (b == c)) [
      | inl same ↦ ([], x ∷ xs, ground arith)
      | inr other ↦ (b ∷ x, xs, ground arith)
    ]

join_with-split_at : (c : ℕ) (bs : Bytes) → join_with c (split_at c bs) ≡ bs
unfolding split_at join_with
join_with-split_at c [] = refl
join_with-split_at c (b ∷ bs) =
    let (x, xs, e) = split_at-cons c bs in
    let rest = join_with-split_at c bs in
    let pushed = join_with-push c b x xs in
    elim (Bool-cases (b == c)) [ inl same ↦ ground arith | inr other ↦ ground arith ]

last_is-take : (c : ℕ) (bs : Bytes) → last_is c bs ≡ true → bs ≡ take (length bs - 1) bs ++ c ∷ []
unfolding last_is
last_is-take c [] h = absurd (ground arith)
last_is-take c (b ∷ []) h = ground arith
last_is-take c (b ∷ (d ∷ bs)) h = let rest = last_is-take c (d ∷ bs) h in ground arith

-- How the name of a version stands in the output.
abbrev pub Names : VersionIdentity → Bytes → Type 0
Names i text =
    ((i.kind ≡ VersionKind.release) × ((i.value ≡ text) ⊎ (i.value ≡ b'v' ∷ text)))
    ⊎ ((i.kind ≡ VersionKind.revision) × (i.value ≡ text) × (is_revision text ≡ true))

three_numbers-eq-some :
    (xs : List Bytes) {a b c : Bytes} → three_numbers xs ≡ some (a, b, c) → xs ≡ a ∷ b ∷ c ∷ []
three_numbers-eq-some [] h = absurd (ground arith)
three_numbers-eq-some (x ∷ []) h = absurd (ground arith)
three_numbers-eq-some (x ∷ (y ∷ [])) h = absurd (ground arith)
three_numbers-eq-some (x ∷ (y ∷ (z ∷ []))) h = ground arith
three_numbers-eq-some (x ∷ (y ∷ (z ∷ (w ∷ ws)))) h = absurd (ground arith)

without_v-cases : (text : Bytes) → (without_v text ≡ text) ⊎ (b'v' ∷ without_v text ≡ text)
without_v-cases [] = inl refl
without_v-cases (c ∷ cs) = elim (Bool-cases (c == b'v')) [
  | inl e ↦ inr (ground arith)
  | inr e ↦ inl (ground arith)
]

release_of-value :
    (a b c : Bytes) {i : VersionIdentity}
    → release_of (a, b, c) ≡ some i
    → (i.kind ≡ VersionKind.release) × (i.value ≡ b'v' ∷ (a ++ b'.' ∷ (b ++ b'.' ∷ c)))
release_of-value a b c h = (ground arith, ground arith)

identity_of-Names : (text : Bytes) {i : VersionIdentity} → identity_of text ≡ some i → Names i text
unfolding identity_of join_with
identity_of-Names text {i} h = elim (Option-cases (release_match text)) [
  | inl e ↦ inr (ground arith, ground arith, ground arith)
  | inr ((a, b, c), e) ↦
      let made : release_of (a, b, c) ≡ some i = ground arith in
      let (kind, value) = release_of-value a b c made in
      let parts = three_numbers-eq-some (split_at b'.' (without_v text)) e in
      let whole : a ++ b'.' ∷ (b ++ b'.' ∷ c) ≡ without_v text =
        ap (join_with b'.') (sym parts) ∙ join_with-split_at b'.' (without_v text) in
      let told : i.value ≡ b'v' ∷ without_v text = value ∙ ap (◌∷◌ b'v') whole in
      elim (without_v-cases text) [
        | inl same ↦ inl (kind, inr (told ∙ ap (◌∷◌ b'v') same))
        | inr same ↦ inl (kind, inl (told ∙ same))
      ]
]

platform_fields-eq-some :
    (line f : Bytes) (xs : List Bytes) {v : Version}
    → platform_fields line f xs ≡ some v
    → (xs ≡ v.platform.os ∷ v.platform.arch ∷ [])
      × (is_platform v.platform.os ≡ true)
      × (is_platform v.platform.arch ≡ true)
      × (v.line ≡ line)
      × (identity_of f ≡ some v.identity)
platform_fields-eq-some line f [] h = absurd (ground arith)
platform_fields-eq-some line f (x ∷ []) h = absurd (ground arith)
platform_fields-eq-some line f (x ∷ (y ∷ (z ∷ zs))) h = absurd (ground arith)
platform_fields-eq-some line f (x ∷ (y ∷ [])) {v} h = elim (Option-cases (identity_of f)) [
  | inl e ↦ absurd (ground arith)
  | inr (i, e) ↦
      let made : record { identity = i; platform = record { os = x; arch = y }; line = line } ≡ v =
        ground arith in
      (ground arith, ground arith, ground arith, ground arith, ground arith)
]

-- The output that a version is printed as, with the text of its name.
abbrev pub printed : Bytes → Platform → Bytes
printed text p = version_prefix ++ (text ++ b' ' ∷ (p.os ++ b'/' ∷ p.arch))

version_fields-printed :
    (line : Bytes) (xs : List Bytes) {v : Version}
    → version_fields line xs ≡ some v
    → (text : Bytes) × (join_with b' ' xs
        ≡ text ++ b' ' ∷ (v.platform.os ++ b'/' ∷ v.platform.arch))
      × Names v.identity text
      × (v.line ≡ line)
unfolding join_with
version_fields-printed line [] h = absurd (ground arith)
version_fields-printed line (f ∷ []) h = absurd (ground arith)
version_fields-printed line (f ∷ (p ∷ (q ∷ qs))) h = absurd (ground arith)
version_fields-printed line (f ∷ (p ∷ [])) {v} h =
    let (parts, _, _, same, is) =
      platform_fields-eq-some line f (split_at b'/' p) {v = v} (ground arith) in
    let whole : v.platform.os ++ b'/' ∷ v.platform.arch ≡ p =
      ap (join_with b'/') (sym parts) ∙ join_with-split_at b'/' p in
    (f, ap (λ t. f ++ b' ' ∷ t) (sym whole), identity_of-Names f is, same)

-- A text that is parsed is the line of the version with a newline behind it, and the line is the prefix,
-- the name of the version, which is a release with or without its `v` or a revision, a space, the system,
-- a slash, and the architecture.
pub parse_version_output-printed :
    (output : Bytes) (v : Version)
    → parse_version_output output ≡ some v
    → (text : Bytes) × (output ≡ printed text v.platform ++ b'\n' ∷ [])
      × (v.line ≡ printed text v.platform)
      × Names v.identity text
unfolding parse_version_output
parse_version_output-printed output v h =
    let line = take (length output - 1) output in
    let n = length version_prefix in
    let ends : last_is b'\n' output ≡ true = ground arith in
    let parsed : parse_line line ≡ some v = ground arith in
    let starts : take n line ≡ version_prefix =
      (equal_iff (take n line) version_prefix).0 (ground arith) in
    let (text, fields, names, same) =
      version_fields-printed line (split_at b' ' (drop n line)) {v = v} (ground arith) in
    let rest = sym (join_with-split_at b' ' (drop n line)) ∙ fields in
    let whole : line ≡ printed text v.platform =
      sym (take-append-drop n line)
      ∙ ap (λ t. t ++ drop n line) starts
      ∙ ap (λ t. version_prefix ++ t) rest in
    (text, last_is-take b'\n' output ends ∙ ap (λ t. t ++ b'\n' ∷ []) whole, same ∙ whole, names)
