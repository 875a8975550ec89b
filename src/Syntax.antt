-- ===== src/Syntax.antt =====
-- The checks of a file's syntax on `flush` and on a rename (crates/smartfs-fuse/src/syntax.rs). A text
-- is the list of its characters (code points). The line and the column, which only the messages of
-- errors show, are left out; a loop over an index is a loop over the characters from there on.
pub mod Delimiters
pub mod Dyck
pub mod Balance
pub mod Text
pub mod Nodes
use smartfs.Base.{
  ℕ, zero, suc, ◌+◌, Bool, true, false, not, ◌&&◌, ◌||◌, Option, none, some, List, [], ◌∷◌, Bytes,
  length, nat_eq, bytes_eq, leb, ◌==◌, if◌then◌else◌,
}
use smartfs.Schema.Error.{SmartFsError, syntax_error, Result, ok, err, ◌>>=◌, ◌>>◌}

pub data Language : Type 0 where
  rust python javascript typescript go json : Language

-- `to_ascii_lowercase`
unfoldable pub ascii_lower : ℕ → ℕ
ascii_lower c = if leb b'A' c && leb c b'Z' then c + 32 else c

unfoldable pub lower : Bytes → Bytes
unfolding ascii_lower
lower [] = []
lower (c ∷ s) = ascii_lower c ∷ lower s

-- `rsplit('.').next()`: what follows the last dot, or all of it.
unfoldable pub last_part : Bytes → Bytes → Bytes
last_part part [] = part
last_part part (c ∷ s) = last_part (if c == b'.' then s else part) s

unfoldable pub language_of : Bytes → Option Language
language_of ext =
    if ext == (b'r' ∷ b's' ∷ [])
    then some rust
    else if ext == (b'p' ∷ b'y' ∷ [])
    then some python
    else if ext == (b'j' ∷ b's' ∷ [])
        || ext == (b'm' ∷ b'j' ∷ b's' ∷ [])
        || ext == (b'c' ∷ b'j' ∷ b's' ∷ [])
        || ext == (b'j' ∷ b's' ∷ b'x' ∷ [])
    then some javascript
    else if ext == (b't' ∷ b's' ∷ []) || ext == (b't' ∷ b's' ∷ b'x' ∷ [])
    then some typescript
    else if ext == (b'g' ∷ b'o' ∷ [])
    then some go
    else if ext == (b'j' ∷ b's' ∷ b'o' ∷ b'n' ∷ [])
    then some json
    else none

unfoldable pub detect_syntax_language : Bytes → Option Language
detect_syntax_language filename = language_of (lower (last_part filename filename))

abbrev pub is_python : Language → Bool
is_python python = true
is_python _ = false

abbrev pub newline : ℕ
newline = 10

abbrev pub backslash : ℕ
backslash = 92

abbrev pub double_quote : ℕ
double_quote = 34

abbrev pub single_quote : ℕ
single_quote = 39

-- The rest of a line comment: up to the end of the line, which stays.
unfoldable pub skip_line : Bytes → Bytes
skip_line [] = []
skip_line (c ∷ s) = if c == newline then c ∷ s else skip_line s

-- Behind the end of a block comment, of which the start is passed; `none` if it has no end.
unfoldable pub skip_block : Bytes → Option Bytes
skip_block [] = none
skip_block (c ∷ []) = none
skip_block (c ∷ d ∷ s) = if c == b'*' && d == b'/' then some s else skip_block (d ∷ s)

-- Behind the end of a string literal, of which the first quote is passed. In Python it may hold the
-- end of a line. A backslash takes the next character with it, if there is one.
unfoldable pub skip_string : Bool → ℕ → Bytes → Option Bytes
skip_string multiline quote [] = none
skip_string multiline quote (c ∷ []) =
    if c == newline && not multiline then none else if c == quote then some [] else none
skip_string multiline quote (c ∷ d ∷ s) = elim (c == newline && not multiline) [
  | true ↦ none
  | false ↦ elim (c == backslash) [
    | true ↦ skip_string multiline quote s
    | false ↦ elim (c == quote) [
      | true ↦ some (d ∷ s)
      | false ↦ skip_string multiline quote (d ∷ s)
    ]
  ]
]

-- What the loop meets at a character, given what follows it.
pub data Token : Type 0 where
  line_comment block_comment quoted opening closing plain : Token

abbrev pub starts_with : ℕ → Bytes → Bool
starts_with c [] = false
starts_with c (d ∷ s) = d == c

unfoldable pub token : Language → ℕ → Bytes → Token
token lang c rest =
    if c == newline
    then plain
    else if (c == b'/' && starts_with b'/' rest) || (is_python lang && c == b'#')
    then line_comment
    else if c == b'/' && starts_with b'*' rest
    then block_comment
    else if c == double_quote || c == single_quote
    then quoted
    else if c == b'(' || c == b'[' || c == b'{'
    then opening
    else if c == b')' || c == b']' || c == b'}'
    then closing
    else plain

-- The delimiter that a closing one is for.
unfoldable pub opener : ℕ → ℕ
opener c = if c == b')' then b'(' else if c == b']' then b'[' else b'{'

abbrev pub tail_of : Bytes → Bytes
tail_of [] = []
tail_of (c ∷ s) = s

-- The stack without its top, if that is the delimiter that a closing one is for.
unfoldable pub pop_for : ℕ → Bytes → Option Bytes
pop_for c [] = none
pop_for c (d ∷ stack) = if d == opener c then some stack else none

-- What follows a token: `loop` is the rest of the loop, from the open delimiters and the characters that
-- are left.
unfoldable pub after_token {ℓ} :
    {A : Type ℓ} → Language → Token → ℕ → Bytes → Bytes → (Bytes → Bytes → A) → A → A
after_token lang plain c stack s loop failed = loop stack s
after_token lang line_comment c stack s loop failed = loop stack (skip_line s)
after_token lang block_comment c stack s loop failed = elim (skip_block (tail_of s)) [
  | none ↦ failed
  | some rest ↦ loop stack rest
]
after_token lang quoted c stack s loop failed = elim (skip_string (is_python lang) c s) [
  | none ↦ failed
  | some rest ↦ loop stack rest
]
after_token lang opening c stack s loop failed = loop (c ∷ stack) s
after_token lang closing c stack s loop failed = elim (pop_for c stack) [
  | none ↦ failed
  | some rest ↦ loop rest s
]

-- At the end of the text no delimiter may be open.
abbrev pub at_end : Bytes → Result (Unit {0})
at_end [] = ok tt
at_end (d ∷ stack) = err syntax_error

-- The outer loop, with the open delimiters. `none` is a loop that is out of fuel, which one round per
-- character and one more never is.
unfoldable pub scan : ℕ → Language → Bytes → Bytes → Option (Result (Unit {0}))
scan zero lang stack s = none
scan (suc n) lang stack [] = some (at_end stack)
scan (suc n) lang stack (c ∷ s) =
    after_token lang (token lang c s) c stack s (λ open_ones rest. scan n lang open_ones rest)
      (some (err syntax_error))

abbrev pub or_error : Option (Result (Unit {0})) → Result (Unit {0})
or_error none = err syntax_error
or_error (some r) = r

unfoldable pub validate_balanced_delimiters : Bytes → Language → Result (Unit {0})
validate_balanced_delimiters code lang = or_error (scan (suc (length code)) lang [] code)

-- serde_json's verdict on a text is a parameter.
module _ (json_valid : Bytes → Bool) where
  unfoldable pub validate_syntax : Bytes → Language → Result (Unit {0})
  validate_syntax code json = if json_valid code then ok tt else err syntax_error
  validate_syntax code lang = validate_balanced_delimiters code lang
