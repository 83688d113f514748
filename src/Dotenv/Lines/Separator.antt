-- ===== src/Dotenv/Lines/Separator.antt =====
-- preceding_line_separator: the separator that stands before a position.
use acme_mux.Prelude.{
  ℕ, zero, suc, ◌-◌, ◌<◌, true, false, ◌&&◌, ◌||◌, ◌≡◌, refl, sym, ap, ◌∙◌, ◌⊎◌, inl, inr, [], ◌∷◌,
  ◌++◌, arith, ltb, ◌==◌, take, length, Bool-cases,
}
use mathlib.Core.Path.{subst}
use acme_mux.Prelude.Bytes.{Bytes, codes}
use acme_mux.Dotenv.Lines.{has, preceding_line_separator}

abbrev pub IsSeparator : Bytes → Type 0
IsSeparator s = (s ≡ codes "\r\n") ⊎ ((s ≡ codes "\n") ⊎ (s ≡ codes "\r"))

-- No line end stands right before the position.
abbrev pub NoneBefore : Bytes → ℕ → Type 0
NoneBefore text p =
    (p ≡ 0)
    ⊎ ((length text < p) ⊎ ((has text (p - 1) b'\n' ≡ false) × (has text (p - 1) b'\r' ≡ false)))

take-snoc :
    (text : Bytes) (i c : ℕ)
    → has text i c ≡ true
    → ◌≡◌ {A = Bytes} (take (suc i) text) (take i text ++ c ∷ [])
take-snoc [] i c h = absurd (ground arith)
take-snoc (b ∷ bs) zero c h = ground arith
take-snoc (b ∷ bs) (suc i) c h = ap (λ (t : Bytes). b ∷ t) (take-snoc bs i c (ground arith))

take_before :
    (text : Bytes) (p c : ℕ)
    → 0 < p
    → has text (p - 1) c ≡ true
    → ◌≡◌ {A = Bytes} (take p text) (take (p - 1) text ++ c ∷ [])
take_before text zero c h e = absurd (omega arith)
take_before text (suc i) c h e =
    let same : suc i - 1 ≡ i = omega arith in
    subst (λ n. ◌≡◌ {A = Bytes} (take (suc i) text) (take n text ++ c ∷ [])) (sym same)
      (take-snoc text i c (subst (λ n. has text n c ≡ true) same e))

pub append_nil : (xs : Bytes) → ◌≡◌ {A = Bytes} xs (xs ++ [])
append_nil [] = refl
append_nil (x ∷ xs) = ap (λ (t : Bytes). x ∷ t) (append_nil xs)

append_two : (xs : Bytes) (c d : ℕ) → ◌≡◌ {A = Bytes} ((xs ++ c ∷ []) ++ d ∷ []) (xs ++ c ∷ d ∷ [])
append_two [] c d = refl
append_two (x ∷ xs) c d = ap (λ (t : Bytes). x ∷ t) (append_two xs c d)

-- The text before a position, with its separator.
pub preceding_line_separator-IsSeparator :
    (text : Bytes) (p : ℕ)
    → (separator : Bytes) × (◌≡◌ {A = Bytes}
        (take p text)
        (take (preceding_line_separator text p) text ++ separator))
      × (IsSeparator separator ⊎ ((separator ≡ []) × NoneBefore text p))
unfolding preceding_line_separator
preceding_line_separator-IsSeparator text p = elim (Bool-cases (p == 0 || ltb (length text) p)) [
  | inl out ↦ (
    [],
    subst (λ n. ◌≡◌ {A = Bytes} (take p text) (take n text ++ []))
        (let at : p ≡ preceding_line_separator text p = ground arith in at)
        (append_nil (take p text)),
    inr (refl, ground arith),
  )
  | inr inside ↦ elim (Bool-cases (has text (p - 1) b'\n')) [
    | inl newline ↦
        let last = take_before text p b'\n' (ground arith) newline in
        elim (Bool-cases (ltb 1 p && has text (p - 2) b'\r')) [
          | inl both ↦
              let back : p - 2 ≡ p - 1 - 1 = omega arith in
              let return : has text (p - 2) b'\r' ≡ true = ground arith in
              let before =
                take_before text (p - 1) b'\r' (ground arith)
                  (subst (λ n. has text n b'\r' ≡ true) back return) in
              let whole =
                last
                ∙ ap (λ (t : Bytes). t ++ b'\n' ∷ []) before
                ∙ append_two (take (p - 1 - 1) text) b'\r' b'\n' in
              let at : p - 1 - 1 ≡ preceding_line_separator text p = ground arith in
              (
                codes "\r\n",
                subst (λ n. ◌≡◌ {A = Bytes} (take p text) (take n text ++ codes "\r\n")) at whole,
                inl (inl refl),
              )
          | inr one ↦ (
            codes "\n",
            (let at : p - 1 ≡ preceding_line_separator text p = ground arith in
                subst (λ n. ◌≡◌ {A = Bytes} (take p text) (take n text ++ codes "\n")) at last),
            inl (inr (inl refl)),
          )
        ]
    | inr other ↦ elim (Bool-cases (has text (p - 1) b'\r')) [
      | inl return ↦
          let last = take_before text p b'\r' (ground arith) return in
          (
            codes "\r",
            (let at : p - 1 ≡ preceding_line_separator text p = ground arith in
                subst (λ n. ◌≡◌ {A = Bytes} (take p text) (take n text ++ codes "\r")) at last),
            inl (inr (inr refl)),
          )
      | inr neither ↦ (
        [],
        subst (λ n. ◌≡◌ {A = Bytes} (take p text) (take n text ++ []))
            (let at : p ≡ preceding_line_separator text p = ground arith in at)
            (append_nil (take p text)),
        inr (refl, ground arith),
      )
    ]
  ]
]
