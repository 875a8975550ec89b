-- ===== src/Syntax/Balance.antt =====
-- What the validation accepts: the texts of which the delimiters outside of comments and literals are
-- balanced (crates/smartfs-fuse/src/syntax.rs, `validate_balanced_delimiters`).
use smartfs.Base.{
  ◌⊎◌, ℕ, zero, suc, ◌≡◌, refl, true, false, Option, none, some, [], ◌∷◌, Bytes, length, nat_eq,
  if◌then◌else◌, arith, inl, inr, Bool-cases, Option-cases, sym, ◌∙◌, ◌↔◌,
}
use smartfs.Schema.Error.{Result, ok, err, syntax_error}
use smartfs.Syntax.{
  Language, is_python, skip_line, skip_block, skip_string, Token, line_comment, block_comment,
  quoted, opening, closing, plain, token, tail_of, pop_for, scan, after_token, at_end, or_error,
  validate_balanced_delimiters,
}
use smartfs.Syntax.Dyck.{Dyck, is_opening, is_closing, closes, closes_sound, closes_complete}
use smartfs.Syntax.Delimiters.{prepend, delimiters, delimiters_after}

-- The verdict on a stack of open delimiters, from the delimiters that follow.
abbrev verdict : Option (Option Bytes) → Bytes → Result (Unit {0})
verdict none stack = err syntax_error
verdict (some none) stack = err syntax_error
verdict (some (some ds)) stack = if closes ds stack then ok tt else err syntax_error

token-opening :
    (lang : Language) (c : ℕ) (s : Bytes) → token lang c s ≡ opening → is_opening c ≡ true
unfolding token
token-opening lang c s h = ground (arith, h)

token-closing :
    (lang : Language) (c : ℕ) (s : Bytes)
    → token lang c s ≡ closing
    → (is_opening c ≡ false) × (is_closing c ≡ true)
unfolding token
token-closing lang c s h = (ground (arith, h), ground (arith, h))

verdict_open :
    (c : ℕ) (d : Option (Option Bytes)) (stack : Bytes)
    → is_opening c ≡ true
    → verdict d (c ∷ stack) ≡ verdict (prepend c d) stack
unfolding closes
verdict_open c none stack e = refl
verdict_open c (some none) stack e = refl
verdict_open c (some (some ds)) stack e = rw e refl

verdict_unmatched :
    (c : ℕ) (d : Option (Option Bytes)) (stack : Bytes)
    → (is_opening c ≡ false) × (is_closing c ≡ true)
    → pop_for c stack ≡ none
    → err syntax_error ≡ verdict (prepend c d) stack
unfolding closes
verdict_unmatched c none stack h e = refl
verdict_unmatched c (some none) stack h e = refl
verdict_unmatched c (some (some ds)) stack (f, g) e = rw (f, g, e) refl

verdict_close :
    (c : ℕ) (d : Option (Option Bytes)) (stack rest : Bytes)
    → (is_opening c ≡ false) × (is_closing c ≡ true)
    → pop_for c stack ≡ some rest
    → verdict d rest ≡ verdict (prepend c d) stack
unfolding closes
verdict_close c none stack rest h e = refl
verdict_close c (some none) stack rest h e = refl
verdict_close c (some (some ds)) stack rest (f, g) e = rw (f, g, e) refl

-- One token, given that the loops agree behind it.
after_token-verdict :
    (lang : Language) (t : Token) (c : ℕ) (s stack : Bytes)
    (loop : Bytes → Bytes → Option (Result (Unit {0}))) (rest_of : Bytes → Option (Option Bytes))
    → token lang c s ≡ t
    → ((rest stack : Bytes) → or_error (loop stack rest) ≡ verdict (rest_of rest) stack)
    → or_error (after_token lang t c stack s loop (some (err syntax_error)))
      ≡ verdict (delimiters_after lang t c s rest_of) stack
unfolding after_token
after_token-verdict lang plain c s stack loop rest_of h ih = ih s stack
after_token-verdict lang line_comment c s stack loop rest_of h ih = ih (skip_line s) stack
after_token-verdict lang block_comment c s stack loop rest_of h ih =
    elim (Option-cases (skip_block (tail_of s))) [
      | inl e ↦ rw (or_error, delimiters_after, after_token, e) refl
      | inr (rest, e) ↦ rw (or_error, delimiters_after, after_token, e) (ih rest stack)
    ]
after_token-verdict lang quoted c s stack loop rest_of h ih =
    elim (Option-cases (skip_string (is_python lang) c s)) [
      | inl e ↦ rw (or_error, delimiters_after, after_token, e) refl
      | inr (rest, e) ↦ rw (or_error, delimiters_after, after_token, e) (ih rest stack)
    ]
after_token-verdict lang opening c s stack loop rest_of h ih =
    ih s (c ∷ stack) ∙ verdict_open c (rest_of s) stack (token-opening lang c s h)
after_token-verdict lang closing c s stack loop rest_of h ih =
    elim (Option-cases (pop_for c stack)) [
      | inl e ↦
          rw (or_error, after_token, e)
            (verdict_unmatched c (rest_of s) stack (token-closing lang c s h) e)
      | inr (rest, e) ↦
          rw (or_error, after_token, e)
            (ih s rest ∙ verdict_close c (rest_of s) stack rest (token-closing lang c s h) e)
    ]

at_end-verdict : (stack : Bytes) → at_end stack ≡ verdict (some (some [])) stack
unfolding closes
at_end-verdict [] = refl
at_end-verdict (d ∷ stack) = refl

scan-verdict :
    (n : ℕ) (lang : Language) (s stack : Bytes)
    → or_error (scan n lang stack s) ≡ verdict (delimiters n lang s) stack
unfolding scan delimiters
scan-verdict zero lang s stack = refl
scan-verdict (suc n) lang [] stack = at_end-verdict stack
scan-verdict (suc n) lang (c ∷ s) stack =
    after_token-verdict lang (token lang c s) c s stack (λ stack rest. scan n lang stack rest)
      (λ rest. delimiters n lang rest) refl (λ rest stack. scan-verdict n lang rest stack)

-- The delimiters of a text, in order, outside of comments and string literals; `none` if one of these
-- has no end.
abbrev pub delimiters_of : Language → Bytes → Option (Option Bytes)
delimiters_of lang code = delimiters (suc (length code)) lang code

unclosed_comment : verdict none [] ≡ ok tt → ⊥
unclosed_comment e = ground (arith, e)

unbalanced : (ds : Bytes) → closes ds [] ≡ false → verdict (some (some ds)) [] ≡ ok tt → ⊥
unbalanced ds e h = ground (arith, e, h)

accepted :
    (d : Option (Option Bytes))
    → verdict d [] ≡ ok tt
    → (ds : Bytes) × (d ≡ some (some ds)) × Dyck ds
accepted none h = elim (unclosed_comment h) [ ]
accepted (some none) h = elim (unclosed_comment h) [ ]
accepted (some (some ds)) h = elim (Bool-cases (closes ds [])) [
  | inl e ↦ (ds, refl, closes_sound ds e)
  | inr e ↦ elim (unbalanced ds e h) [ ]
]

abbrev pub IsBalanced : Language → Bytes → Type 0
IsBalanced lang code = (ds : Bytes) × (delimiters_of lang code ≡ some (some ds)) × Dyck ds

-- The validation accepts a text exactly if its comments and string literals have an end and the
-- delimiters outside of them form a balanced word, each closed by its own partner.
pub validate_balanced_delimiters_exact :
    (lang : Language) (code : Bytes)
    → (validate_balanced_delimiters code lang ≡ ok tt) ↔ IsBalanced lang code
unfolding validate_balanced_delimiters
validate_balanced_delimiters_exact lang code = (
  λ h. accepted (delimiters_of lang code) (sym (scan-verdict (suc (length code)) lang code []) ∙ h),
  λ (ds, e, a). scan-verdict (suc (length code)) lang code [] ∙ rw (e, closes_complete ds a) refl,
)

verdict-cases :
    (d : Option (Option Bytes)) (stack : Bytes)
    → (verdict d stack ≡ ok tt) ⊎ (verdict d stack ≡ err syntax_error)
verdict-cases none stack = inr refl
verdict-cases (some none) stack = inr refl
verdict-cases (some (some ds)) stack = elim (Bool-cases (closes ds stack)) [
  | inl e ↦ inl (rw e refl)
  | inr e ↦ inr (rw e refl)
]

pub validate_balanced_delimiters-cases :
    (code : Bytes) (lang : Language)
    → (validate_balanced_delimiters code lang ≡ ok tt)
      ⊎ (validate_balanced_delimiters code lang ≡ err syntax_error)
unfolding validate_balanced_delimiters
validate_balanced_delimiters-cases code lang =
    rw (scan-verdict (suc (length code)) lang code []) (verdict-cases (delimiters_of lang code) [])
