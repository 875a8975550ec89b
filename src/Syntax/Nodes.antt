-- ===== src/Syntax/Nodes.antt =====
-- The declarations that a source file holds, with the lines of each (crates/smartfs-fuse/src/syntax.rs,
-- `extract_ast_nodes`). Which characters are white space and which are alphanumeric (Unicode's tables)
-- and the hash of a text (SHA-256 of its UTF-8, in hexadecimal) are parameters. A line's index counts
-- from 0, as in the source, and a node's lines from 1.
pub mod Extents
use smartfs.Base.{
  ℕ, zero, suc, ◌+◌, ◌-◌, ◌%◌, ◌^◌, Bool, true, false, not, ◌&&◌, ◌||◌, Option, none, some, List,
  [], ◌∷◌, ◌++◌, Bytes, length, drop, take, ltb, leb, nat_eq, ◌==◌, if◌then◌else◌,
}
use mathlib.Core.List.{reverse}
use smartfs.Schema.Error.{Result, ok, err, ◌>>=◌}
use smartfs.Db.Models.{AstNodeInsert}
use smartfs.Syntax.Text.{
  finished_line, last_line, lines_from, lines, join_lines, strip_prefix, after_keyword, take_while,
  drop_while, nonempty,
}
use smartfs.Syntax.{
  Language, rust, python, javascript, typescript, go, json, newline, detect_syntax_language,
  validate_syntax,
}

-- The `kind` column.
abbrev pub function_kind : Bytes
function_kind = b'f' ∷ b'u' ∷ b'n' ∷ b'c' ∷ b't' ∷ b'i' ∷ b'o' ∷ b'n' ∷ []

abbrev pub struct_kind : Bytes
struct_kind = b's' ∷ b't' ∷ b'r' ∷ b'u' ∷ b'c' ∷ b't' ∷ []

abbrev pub enum_kind : Bytes
enum_kind = b'e' ∷ b'n' ∷ b'u' ∷ b'm' ∷ []

abbrev pub trait_kind : Bytes
trait_kind = b't' ∷ b'r' ∷ b'a' ∷ b'i' ∷ b't' ∷ []

abbrev pub impl_kind : Bytes
impl_kind = b'i' ∷ b'm' ∷ b'p' ∷ b'l' ∷ []

abbrev pub class_kind : Bytes
class_kind = b'c' ∷ b'l' ∷ b'a' ∷ b's' ∷ b's' ∷ []

abbrev pub type_kind : Bytes
type_kind = b't' ∷ b'y' ∷ b'p' ∷ b'e' ∷ []

-- How the end of a declaration is found.
pub data Extent : Type 0 where
  brace_block indent_block : Extent

pub record Declaration : Type 0 where
  pub keyword : Bytes
  pub kind : Bytes
  pub extent : Extent

abbrev pub declaration : Bytes → Bytes → Extent → Declaration
declaration keyword kind extent = record { keyword = keyword; kind = kind; extent = extent }

-- The tests of a language, in their order.
abbrev pub declarations : Language → List Declaration
declarations rust =
    declaration (b'f' ∷ b'n' ∷ b' ' ∷ []) function_kind brace_block
    ∷ declaration (b's' ∷ b't' ∷ b'r' ∷ b'u' ∷ b'c' ∷ b't' ∷ b' ' ∷ []) struct_kind brace_block
    ∷ declaration (b'e' ∷ b'n' ∷ b'u' ∷ b'm' ∷ b' ' ∷ []) enum_kind brace_block
    ∷ declaration (b't' ∷ b'r' ∷ b'a' ∷ b'i' ∷ b't' ∷ b' ' ∷ []) trait_kind brace_block
    ∷ declaration (b'i' ∷ b'm' ∷ b'p' ∷ b'l' ∷ b' ' ∷ []) impl_kind brace_block
    ∷ []
declarations python =
    declaration (b'd' ∷ b'e' ∷ b'f' ∷ b' ' ∷ []) function_kind indent_block
    ∷ declaration (b'c' ∷ b'l' ∷ b'a' ∷ b's' ∷ b's' ∷ b' ' ∷ []) class_kind indent_block
    ∷ []
declarations javascript =
    declaration (b'f' ∷ b'u' ∷ b'n' ∷ b'c' ∷ b't' ∷ b'i' ∷ b'o' ∷ b'n' ∷ b' ' ∷ []) function_kind
      brace_block
    ∷ declaration (b'c' ∷ b'l' ∷ b'a' ∷ b's' ∷ b's' ∷ b' ' ∷ []) class_kind brace_block
    ∷ []
declarations typescript =
    declaration (b'f' ∷ b'u' ∷ b'n' ∷ b'c' ∷ b't' ∷ b'i' ∷ b'o' ∷ b'n' ∷ b' ' ∷ []) function_kind
      brace_block
    ∷ declaration (b'c' ∷ b'l' ∷ b'a' ∷ b's' ∷ b's' ∷ b' ' ∷ []) class_kind brace_block
    ∷ []
declarations go =
    declaration (b'f' ∷ b'u' ∷ b'n' ∷ b'c' ∷ b' ' ∷ []) function_kind brace_block
    ∷ declaration (b't' ∷ b'y' ∷ b'p' ∷ b'e' ∷ b' ' ∷ []) type_kind brace_block
    ∷ []
declarations json = []

unfoldable pub get_indent : Bytes → ℕ
unfolding take_while
get_indent line = length (take_while (λ c. c == b' ' || c == 9) line)

-- The braces of a line; `brace_depth` is what was opened less what was closed.
unfoldable pub count_char : ℕ → Bytes → ℕ
count_char d [] = 0
count_char d (c ∷ s) = (if c == d then 1 else 0) + count_char d s

-- The index of the last line of a block, from the line `idx` on: the first line at whose end a brace
-- was opened and no more are open than closed, or the last line of all.
unfoldable pub brace_end : ℕ → ℕ → ℕ → ℕ → List Bytes → ℕ
unfolding count_char
brace_end idx opened closed end_idx [] = end_idx
brace_end idx opened closed end_idx (line ∷ rest) =
    let opened_now = opened + count_char b'{' line in
    let closed_now = closed + count_char b'}' line in
    if ltb 0 opened_now && leb opened_now closed_now
    then idx
    else brace_end (suc idx) opened_now closed_now idx rest

module _ (is_whitespace : ℕ → Bool) where
  abbrev pub trim : Bytes → Bytes
  trim s = reverse (drop_while is_whitespace (reverse (drop_while is_whitespace s)))

  abbrev pub is_blank : Bytes → Bool
  is_blank line = leb (length (trim line)) 0

  unfoldable pub indent_end : ℕ → ℕ → ℕ → List Bytes → ℕ
  unfolding get_indent
  indent_end start_indent idx end_idx [] = end_idx
  indent_end start_indent idx end_idx (line ∷ rest) = elim (is_blank line) [
    | true ↦ indent_end start_indent (suc idx) end_idx rest
    | false ↦ elim (leb (get_indent line) start_indent) [
      | true ↦ end_idx
      | false ↦ indent_end start_indent (suc idx) idx rest
    ]
  ]

  -- The last line of a block whose first line is `line`, of the index `start`.
  unfoldable pub block_end : Extent → ℕ → Bytes → List Bytes → ℕ
  unfolding brace_end indent_end get_indent
  block_end brace_block start line rest = brace_end start 0 0 start (line ∷ rest)
  block_end indent_block start line rest = indent_end (get_indent line) (suc start) start rest

-- `as i32`, as a word of 32 bits.
abbrev pub as_i32 : ℕ → ℕ
as_i32 n = n % 2 ^ 32

abbrev pub make_ast_node : (Bytes → Bytes) → Bytes → Bytes → ℕ → ℕ → Bytes → AstNodeInsert
make_ast_node hash kind name start_line end_line source = record {
  kind = kind;
  name = name;
  start_line = as_i32 start_line;
  end_line = as_i32 end_line;
  source = source;
  content_hash = hash source;
}

abbrev pub block_source : List Bytes → ℕ → ℕ → Bytes
block_source all start end_idx = join_lines (take (suc end_idx - start) (drop start all))

abbrev pub with_node : AstNodeInsert → Option (List AstNodeInsert) → Option (List AstNodeInsert)
with_node node none = none
with_node node (some nodes) = some (node ∷ nodes)

abbrev pub nodes_or_none : Option (List AstNodeInsert) → List AstNodeInsert
nodes_or_none none = []
nodes_or_none (some nodes) = nodes

module _ (is_whitespace is_alphanumeric : ℕ → Bool) where
  unfoldable pub extract_decl_name : Bytes → Bytes → Option Bytes
  unfolding after_keyword take_while
  extract_decl_name line keyword = elim (after_keyword keyword line) [
    | none ↦ none
    | some rest ↦
        nonempty (take_while (λ c. is_alphanumeric c || c == b'_') (trim is_whitespace rest))
  ]

  -- The first test of a line that succeeds, with the name that it gives.
  unfoldable pub declared : List Declaration → Bytes → Option (Declaration × Bytes)
  unfolding extract_decl_name
  declared [] line = none
  declared (d ∷ tests) line = elim (extract_decl_name line d.keyword) [
    | some name ↦ some (d, name)
    | none ↦ declared tests line
  ]

module _ (is_whitespace is_alphanumeric : ℕ → Bool) (hash : Bytes → Bytes) where
  -- The loop, from the line `i` on. `none` is a loop that is out of fuel.
  unfoldable pub nodes_from : ℕ → Language → List Bytes → ℕ → Option (List AstNodeInsert)
  unfolding declared block_end
  nodes_from zero lang all i = none
  nodes_from (suc n) lang all i = elim (drop i all) [
    | [] ↦ some []
    | line ∷ rest ↦
        elim (declared is_whitespace is_alphanumeric (declarations lang)
          (trim is_whitespace line)) [
            | none ↦ nodes_from n lang all (i + 1)
            | some (d, name) ↦
                let end_idx = block_end is_whitespace d.extent i line rest in
                with_node
                  (make_ast_node hash d.kind name (i + 1) (end_idx + 1)
                    (block_source all i end_idx))
                  (nodes_from n lang all (end_idx + 1))
          ]
  ]

  -- A round for each line and one more are enough.
  unfoldable pub extract_ast_nodes : Bytes → Language → List AstNodeInsert
  unfolding nodes_from
  extract_ast_nodes code lang =
      nodes_or_none (nodes_from (suc (length (lines code))) lang (lines code) 0)

  -- The validation and the extraction of a file by its name.
  unfoldable pub validate_and_extract_ast_blocking :
      (Bytes → Bool) → Bytes → Bytes → Result (List AstNodeInsert)
  unfolding detect_syntax_language validate_syntax extract_ast_nodes
  validate_and_extract_ast_blocking json_valid code filename =
      elim (detect_syntax_language filename) [
        | none ↦ ok []
        | some lang ↦ validate_syntax json_valid code lang >>= λ _. ok (extract_ast_nodes code lang)
      ]
