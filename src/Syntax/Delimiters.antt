-- ===== src/Syntax/Delimiters.antt =====
-- The delimiters of a text that stand outside of comments and string literals, and that the loops over
-- the characters come to their end (crates/smartfs-fuse/src/syntax.rs).
use smartfs.Base.{
  ℕ, zero, suc, ◌≤◌, ◌<◌, ◌≡◌, refl, Bool, Option, none, some, [], ◌∷◌, Bytes, length, nat_eq,
  arith, inl, inr, Option-cases,
}
use smartfs.Schema.Error.{Result, err, syntax_error}
use smartfs.Syntax.{
  Language, is_python, skip_line, skip_block, skip_string, Token, line_comment, block_comment,
  quoted, opening, closing, plain, token, tail_of, pop_for, scan, after_token, at_end,
}

abbrev pub prepend : ℕ → Option (Option Bytes) → Option (Option Bytes)
prepend c none = none
prepend c (some none) = some none
prepend c (some (some ds)) = some (some (c ∷ ds))

-- `some none` is a text with a comment or a literal that has no end, and `none` is no fuel left.
-- What a token adds to the delimiters of the rest.
abbrev pub delimiters_after :
    Language → Token → ℕ → Bytes → (Bytes → Option (Option Bytes)) → Option (Option Bytes)
delimiters_after lang plain c s loop = loop s
delimiters_after lang line_comment c s loop = loop (skip_line s)
delimiters_after lang block_comment c s loop = elim (skip_block (tail_of s)) [
  | none ↦ some none
  | some rest ↦ loop rest
]
delimiters_after lang quoted c s loop = elim (skip_string (is_python lang) c s) [
  | none ↦ some none
  | some rest ↦ loop rest
]
delimiters_after lang opening c s loop = prepend c (loop s)
delimiters_after lang closing c s loop = prepend c (loop s)

unfoldable pub delimiters : ℕ → Language → Bytes → Option (Option Bytes)
delimiters zero lang s = none
delimiters (suc n) lang [] = some (some [])
delimiters (suc n) lang (c ∷ s) =
    delimiters_after lang (token lang c s) c s (λ rest. delimiters n lang rest)

pub length-skip_line : (s : Bytes) → length (skip_line s) ≤ length s
unfolding skip_line
length-skip_line [] = omega arith
length-skip_line (c ∷ s) = ground (arith, length-skip_line s)

length-tail_of : (s : Bytes) → length (tail_of s) ≤ length s
length-tail_of [] = omega arith
length-tail_of (c ∷ s) = omega arith

pub length-skip_block : (s rest : Bytes) → skip_block s ≡ some rest → length rest ≤ length s
unfolding skip_block
length-skip_block [] rest e = ground (arith, e)
length-skip_block (c ∷ []) rest e = ground (arith, e)
length-skip_block (c ∷ d ∷ s) rest e = ground (arith, e, length-skip_block (d ∷ s) rest)

pub length-skip_string :
    (multiline : Bool) (quote : ℕ) (s rest : Bytes)
    → skip_string multiline quote s ≡ some rest
    → length rest ≤ length s
unfolding skip_string
length-skip_string multiline quote [] rest e = ground (arith, e)
length-skip_string multiline quote (c ∷ []) rest e = ground (arith, e)
length-skip_string multiline quote (c ∷ d ∷ s) rest e = ground (
  arith,
  e,
  length-skip_string multiline quote s rest,
  length-skip_string multiline quote (d ∷ s) rest,
)

-- The rest behind a block comment, of which the start is not passed yet.
pub length-skip_comment :
    (s rest : Bytes) → skip_block (tail_of s) ≡ some rest → length rest ≤ length s
length-skip_comment s rest e = omega (arith, length-skip_block (tail_of s) rest e, length-tail_of s)

-- What holds of the rest of the loop on no longer texts, and of a failure, holds after a token.
pub after_token-keeps {ℓ κ} :
    {A : Type ℓ} (P : A → Type κ) (lang : Language) (t : Token) (c : ℕ) (stack s : Bytes)
    (loop : Bytes → Bytes → A) (failed : A)
    → P failed
    → ((rest stack : Bytes) → length rest ≤ length s → P (loop stack rest))
    → P (after_token lang t c stack s loop failed)
unfolding after_token
after_token-keeps P lang plain c stack s loop failed bad good = good s stack (omega arith)
after_token-keeps P lang line_comment c stack s loop failed bad good =
    good (skip_line s) stack (length-skip_line s)
after_token-keeps P lang block_comment c stack s loop failed bad good =
    elim (Option-cases (skip_block (tail_of s))) [
      | inl e ↦ rw (after_token, e) bad
      | inr (rest, e) ↦ rw (after_token, e) (good rest stack (length-skip_comment s rest e))
    ]
after_token-keeps P lang quoted c stack s loop failed bad good =
    elim (Option-cases (skip_string (is_python lang) c s)) [
      | inl e ↦ rw (after_token, e) bad
      | inr (rest, e) ↦
          rw (after_token, e) (good rest stack (length-skip_string (is_python lang) c s rest e))
    ]
after_token-keeps P lang opening c stack s loop failed bad good = good s (c ∷ stack) (omega arith)
after_token-keeps P lang closing c stack s loop failed bad good =
    elim (Option-cases (pop_for c stack)) [
      | inl e ↦ rw (after_token, e) bad
      | inr (rest, e) ↦ rw (after_token, e) (good s rest (omega arith))
    ]

-- More fuel than characters is enough for the loop of the validation, whatever is open.
pub scan_ends :
    (n : ℕ) (lang : Language) (s stack : Bytes)
    → length s < n
    → (r : Result (Unit {0})) × (scan n lang stack s ≡ some r)
unfolding scan
scan_ends zero lang s stack h = elim h [ ]
scan_ends (suc n) lang [] stack h = (at_end stack, refl)
scan_ends (suc n) lang (c ∷ s) stack h =
    after_token-keeps (λ (o : Option (Result (Unit {0}))). (r : Result (Unit {0})) × (o ≡ some r))
      lang (token lang c s) c stack s (λ stack rest. scan n lang stack rest)
      (some (err syntax_error)) (err syntax_error, refl)
      (λ rest stack k. scan_ends n lang rest stack (omega (arith, h, k)))
