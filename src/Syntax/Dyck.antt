-- ===== src/Syntax/Dyck.antt =====
-- Balanced words of delimiters, and that a stack recognises them
-- (crates/smartfs-fuse/src/syntax.rs, `validate_balanced_delimiters`).
use smartfs.Base.{
  ℕ, ◌≡◌, refl, Bool, true, false, ◌||◌, none, some, [], ◌∷◌, ◌++◌, Bytes, nat_eq, ◌==◌,
  if◌then◌else◌, arith, inl, inr, Bool-cases, sym, ap, ◌∙◌, subst,
}
use mathlib.Core.List.{append_assoc, append-nil}
use smartfs.Syntax.{opener, pop_for}

abbrev pub is_opening : ℕ → Bool
is_opening c = c == b'(' || c == b'[' || c == b'{'

abbrev pub is_closing : ℕ → Bool
is_closing c = c == b')' || c == b']' || c == b'}'

-- Which delimiter closes which.
pub data Pair : ℕ → ℕ → Type 0 where
  parentheses : Pair b'(' b')'
  brackets : Pair b'[' b']'
  braces : Pair b'{' b'}'

-- The words: nothing, or a balanced word between a delimiter and its partner, and one behind.
pub data Dyck : Bytes → Type 0 where
  nothing : Dyck []
  nest :
      (o c : ℕ) (xs ys ds : Bytes)
      → Pair o c
      → Dyck xs
      → Dyck ys
      → ds ≡ o ∷ (xs ++ (c ∷ ys))
      → Dyck ds

Pair-opener : (c : ℕ) → is_closing c ≡ true → Pair (opener c) c
unfolding opener
Pair-opener c h = elim (Bool-cases (c == b')')) [
  | inl e ↦
      let found : c ≡ b')' = ground (arith, e, nat_eq.beq_iff c b')') in
      subst (λ k. Pair (opener k) k) (sym found) parentheses
  | inr e ↦ elim (Bool-cases (c == b']')) [
    | inl f ↦
        let found : c ≡ b']' = ground (arith, f, nat_eq.beq_iff c b']') in
        subst (λ k. Pair (opener k) k) (sym found) brackets
    | inr f ↦
        let found : c ≡ b'}' = ground (arith, e, f, h, nat_eq.beq_iff c b'}') in
        subst (λ k. Pair (opener k) k) (sym found) braces
  ]
]

partner_found : (o c : ℕ) → Pair o c → (is_closing c ≡ true) × (o ≡ opener c)
unfolding opener
partner_found _ _ parentheses = (refl, refl)
partner_found _ _ brackets = (refl, refl)
partner_found _ _ braces = (refl, refl)

abbrev is_nil : Bytes → Bool
is_nil [] = true
is_nil (c ∷ s) = false

-- Whether a word closes the open delimiters of a stack, the top first.
unfoldable pub closes : Bytes → Bytes → Bool
closes [] stack = is_nil stack
closes (c ∷ ds) stack =
    if is_opening c
    then closes ds (c ∷ stack)
    else if is_closing c
    then elim (pop_for c stack) [ none ↦ false | some rest ↦ closes ds rest ]
    else false

-- What is left to close: a balanced word, then the partner of the top, and so on down the stack.
abbrev Rest : Bytes → Bytes → Type 0
Rest [] ds = Dyck ds
Rest (d ∷ stack) ds =
    (xs : Bytes) × (c : ℕ) × (ys : Bytes) × (ds ≡ xs ++ (c ∷ ys))
    × Dyck xs
    × Pair d c
    × Rest stack ys

Rest-open :
    (stack : Bytes) (c k : ℕ) (xs ys : Bytes)
    → Dyck xs
    → Pair c k
    → Rest stack ys
    → Rest stack (c ∷ (xs ++ (k ∷ ys)))
Rest-open [] c k xs ys a p r = nest c k xs ys _ p a r refl
Rest-open (d ∷ stack) c k xs ys a p (us, j, vs, split, b, q, r) = (
  c ∷ (xs ++ (k ∷ us)),
  j,
  vs,
  ap (λ l. c ∷ (xs ++ (k ∷ l))) split ∙ ap (λ l. c ∷ l) (sym (append_assoc xs (k ∷ us) (j ∷ vs))),
  nest c k xs us _ p a b refl,
  q,
  r,
)

absurd : {A : Type 0} → false ≡ true → A
absurd h = elim (no h) [ ]
  where
    no : false ≡ true → ⊥
    no e = ground (arith, e)

close_top :
    (c : ℕ) (ds stack : Bytes)
    → is_closing c ≡ true
    → elim (pop_for c stack) as (λ _. Bool) [ none ↦ false | some rest ↦ closes ds rest ] ≡ true
    → ((rest : Bytes) → closes ds rest ≡ true → Rest rest ds)
    → Rest stack (c ∷ ds)
unfolding pop_for
close_top c ds [] f h ih = absurd h
close_top c ds (d ∷ stack) f h ih = elim (Bool-cases (d == opener c)) [
  | inl e ↦ (
    [],
    c,
    ds,
    refl,
    nothing,
    subst (λ o. Pair o c) (sym ((nat_eq.beq_iff d (opener c)).0 e)) (Pair-opener c f),
    ih stack (ground (arith, e, h)),
  )
  | inr e ↦ absurd (ground (arith, e, h))
]

closes_nothing : (stack : Bytes) → is_nil stack ≡ true → Rest stack []
closes_nothing [] h = nothing
closes_nothing (d ∷ stack) h = absurd h

closes-Rest : (ds stack : Bytes) → closes ds stack ≡ true → Rest stack ds
unfolding closes
closes-Rest [] stack h = closes_nothing stack h
closes-Rest (c ∷ ds) stack h = elim (Bool-cases (is_opening c)) [
  | inl e ↦
      let (xs, k, ys, split, a, p, r) = closes-Rest ds (c ∷ stack) (ground (arith, e, h)) in
      subst (λ l. Rest stack (c ∷ l)) (sym split) (Rest-open stack c k xs ys a p r)
  | inr e ↦ elim (Bool-cases (is_closing c)) [
    | inl f ↦ close_top c ds stack f (ground (arith, e, f, h)) (λ rest. closes-Rest ds rest)
    | inr f ↦ absurd (ground (arith, e, f, h))
  ]
]

-- Every word that closes the empty stack is balanced.
pub closes_sound : (ds : Bytes) → closes ds [] ≡ true → Dyck ds
closes_sound ds h = closes-Rest ds [] h

opener-opening : (c : ℕ) → is_opening (opener c) ≡ true
unfolding opener
opener-opening c = ground arith

closing_only : (c : ℕ) → is_closing c ≡ true → is_opening c ≡ false
closing_only c h = ground (arith, h)

open_step : (c : ℕ) (ds stack : Bytes) → closes (opener c ∷ ds) stack ≡ closes ds (opener c ∷ stack)
unfolding closes
open_step c ds stack = ground (arith, opener-opening c)

close_step :
    (c : ℕ) (ds stack : Bytes)
    → is_closing c ≡ true
    → closes (c ∷ ds) (opener c ∷ stack) ≡ closes ds stack
unfolding closes pop_for
close_step c ds stack f = ground (arith, f, closing_only c f, nat_eq.beq_iff (opener c) (opener c))

-- A balanced word leaves the stack as it is.
closes-append :
    (ds : Bytes) → Dyck ds → (stack es : Bytes) → closes (ds ++ es) stack ≡ closes es stack
closes-append _ nothing stack es = refl
closes-append _ (nest o c xs ys ds p a b e) stack es =
    let (f, g) = partner_found o c p in
    let inner = closes-append xs a (opener c ∷ stack) (c ∷ (ys ++ es)) in
    let outer = closes-append ys b stack es in
    ap (λ l. closes (l ++ es) stack) (e ∙ ap (λ k. k ∷ (xs ++ (c ∷ ys))) g)
    ∙ open_step c ((xs ++ (c ∷ ys)) ++ es) stack
    ∙ ap (λ l. closes l (opener c ∷ stack)) (append_assoc xs (c ∷ ys) es)
    ∙ inner
    ∙ close_step c (ys ++ es) stack f
    ∙ outer

-- And every balanced word closes it.
pub closes_complete : (ds : Bytes) → Dyck ds → closes ds [] ≡ true
unfolding closes
closes_complete ds a = ap (λ l. closes l []) (sym (append-nil ds)) ∙ closes-append ds a [] []
