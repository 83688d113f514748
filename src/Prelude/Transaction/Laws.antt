-- ===== src/Prelude/Transaction/Laws.antt =====
-- What a statement and a transaction do, whatever the script of failures.
use mathlib.Core.Path.{◌≡◌, refl, sym, ap, subst, subst₂}
use mathlib.Core.Logic.{inl, inr}
use mathlib.Core.Bool.{Bool, true, false}
use mathlib.Core.List.{List, []}
use native.Mathlib.Omega.{arith}
use acme_mux.Prelude.Fallible.{ok, err, Result-cases}
use acme_mux.Prelude.Transaction.{
  Session, Transaction, ◌>>=◌, ◌>>◌, throw_if, statement, committed, transact, Call, refuse_if,
}

pub tx_bind-eq-ok :
    {T E A B : Type 0} (m : Transaction T E A) (f : A → Transaction T E B) (s : Session T) {b : B}
    {t : Session T}
    → (m >>= f) s ≡ ok (b, t)
    → (a : A) × (u : Session T) × (m s ≡ ok (a, u)) × (f a u ≡ ok (b, t))
tx_bind-eq-ok m f s h = elim (Result-cases (m s)) [
  | inl ((a, u), e) ↦ (a, u, e, ground arith)
  | inr (x, e) ↦ absurd (ground arith)
]

pub tx_guard-eq-ok :
    {T E B : Type 0} (bad : Bool) (e : E) (f : Transaction T E B) (s : Session T) {b : B}
    {t : Session T}
    → (throw_if bad e >> f) s ≡ ok (b, t)
    → (bad ≡ false) × (f s ≡ ok (b, t))
tx_guard-eq-ok true e f s h = absurd (ground arith)
tx_guard-eq-ok false e f s h = (refl, h)

pub statement-eq-ok :
    {T E A : Type 0} (fault : E) (f : T → A × T) (s : Session T) {a : A} {t : Session T}
    → statement fault f s ≡ ok (a, t)
    → (a ≡ (f s.tables).0) × (t.tables ≡ (f s.tables).1)
unfolding statement
statement-eq-ok fault f s h = ground arith

-- A statement runs where the script is empty.
pub statement_runs :
    {T E A : Type 0} (fault : E) (f : T → A × T) (t : T)
    → statement {E = E} fault f (record { tables = t; script = [] })
      ≡ ok ((f t).0, record { tables = (f t).1; script = [] })
unfolding statement
statement_runs fault f t = refl

-- A successful transaction has run its body on the tables and committed what it left.
pub transact-eq-ok :
    {T E A : Type 0} (fault : E) (script : List Bool) (body : Transaction T E A) (tables after : T)
    {a : A}
    → transact fault script body tables ≡ (ok a, after)
    → (s u : Session T) × (s.tables ≡ tables) × (body s ≡ ok (a, u)) × (u.tables ≡ after)
unfolding transact
transact-eq-ok {T} {E} fault script body tables after {a} h =
    elim (Result-cases (committed fault body (record { tables = tables; script = script }))) [
      | inr (x, e) ↦ absurd (ground arith)
      | inl ((out, last), e) ↦
          let open_tx = statement {T = T} {E = E} {A = Unit {0}} fault (λ t. (tt, t)) in
          let start : Session T = record { tables = tables; script = script } in
          let (_, s, begun, e₁) = tx_bind-eq-ok open_tx _ start e in
          let (b, u, ran, e₂) = tx_bind-eq-ok body _ s e₁ in
          let (_, v, closed, e₃) = tx_bind-eq-ok open_tx _ u e₂ in
          let first = statement-eq-ok fault (λ t. (tt, t)) start begun in
          let last_one = statement-eq-ok fault (λ t. (tt, t)) u closed in
          let value : b ≡ a = ground arith in
          (s, u, first.1, subst (λ x. body s ≡ ok (x, u)) value ran, ground arith)
    ]

-- A transaction that fails has changed nothing.
pub transact-eq-err :
    {T E A : Type 0} (fault : E) (script : List Bool) (body : Transaction T E A) (tables after : T)
    {e : E}
    → transact fault script body tables ≡ (err e, after)
    → after ≡ tables
unfolding transact
transact-eq-err fault script body tables after h = ground arith

-- A call that succeeds was not refused.
pub refuse_if-eq-ok :
    {T E A : Type 0} (bad : Bool) (e : E) (call : Call T E A) (t : T) {a : A} {after : T}
    → refuse_if bad e call t ≡ (ok a, after)
    → (bad ≡ false) × (call t ≡ (ok a, after))
refuse_if-eq-ok true e call t h = absurd (ground arith)
refuse_if-eq-ok false e call t h = (refl, h)

-- A call that changes nothing where it fails.
abbrev pub Atomic : {T E A : Type 0} → Call T E A → Type 0
Atomic {T} {E} call = (t : T) (e : E) (after : T) → call t ≡ (err e, after) → after ≡ t

pub refuse_if-Atomic :
    {T E A : Type 0} (bad : Bool) (e : E) (call : Call T E A)
    → Atomic call
    → Atomic (refuse_if bad e call)
refuse_if-Atomic true e call h t x after p = ground arith
refuse_if-Atomic false e call h t x after p = h t x after p

pub transact-Atomic :
    {T E A : Type 0} (fault : E) (script : List Bool) (body : Transaction T E A)
    → Atomic (transact fault script body)
transact-Atomic fault script body t e after p = transact-eq-err fault script body t after p

pub guarded-Atomic :
    {T E A : Type 0} (bad : Bool) (e fault : E) (script : List Bool) (body : Transaction T E A)
    → Atomic (refuse_if bad e (transact fault script body))
guarded-Atomic bad e fault script body =
    refuse_if-Atomic bad e (transact fault script body) (transact-Atomic fault script body)

-- A relation that holds where nothing changes holds across a transaction whose body keeps it.
pub transact_keeps :
    {T E A : Type 0} (R : T → T → Type 0) (fault : E) (script : List Bool)
    (body : Transaction T E A) (t : T)
    → R t t
    → ((s : Session T) (a : A) (u : Session T) → body s ≡ ok (a, u) → R s.tables u.tables)
    → R t (transact fault script body t).1
transact_keeps R fault script body t same keeps =
    elim (Result-cases (transact fault script body t).0) [
      | inr (e, h) ↦
          let left =
            transact-eq-err fault script body t (transact fault script body t).1
              (ap (λ x. (x, (transact fault script body t).1)) h) in
          subst (R t) (sym left) same
      | inl (a, h) ↦
          let (s, u, at_s, ran, at_u) =
            transact-eq-ok fault script body t (transact fault script body t).1
              (ap (λ x. (x, (transact fault script body t).1)) h) in
          subst₂ R at_s at_u (keeps s a u ran)
    ]

pub refuse_if_keeps :
    {T E A : Type 0} (R : T → T → Type 0) (bad : Bool) (e : E) (call : Call T E A) (t : T)
    → R t t
    → R t (call t).1
    → R t (refuse_if bad e call t).1
refuse_if_keeps R true e call t same kept = same
refuse_if_keeps R false e call t same kept = kept
