-- ===== src/Tests/Syntax.antt =====
-- The checks of a file's syntax at concrete inputs (crates/smartfs-fuse/src/syntax.rs, fs.rs).
use smartfs.Base.{
  ℕ, ◌≡◌, refl, Bool, true, false, none, some, [], ◌∷◌, Bytes, length, nat_eq, bytes_eq, bytes_beq,
  ◌==◌, lookup, ◌↔◌, ◌⊎◌, ◌<◌, ◌^◌, arith,
}
use smartfs.Schema.Error.{Result, ok, err, syntax_error, eacces}
use smartfs.Db.Inodes.{inode_lookup_by_ino, find_ino}
use smartfs.Db.Inodes.Rows.{find_row}
use smartfs.Handles.{get_handle}
use smartfs.Fuse.{Mount, Checker, reply, error}
use smartfs.Fuse.Io.{flush}
use smartfs.Fuse.Checked.{syntax_checker, flush_accepts-IsBalanced}
use smartfs.Syntax.{
  rust, python, detect_syntax_language, language_of, lower, last_part, ascii_lower, scan,
  validate_balanced_delimiters, token, after_token, skip_line, skip_string, pop_for, opener,
}
use smartfs.Syntax.Delimiters.{scan_ends}
use smartfs.Syntax.Balance.{IsBalanced, validate_balanced_delimiters_exact}
use smartfs.Syntax.Text.{
  lines, lines_from, after_keyword, strip_prefix, take_while, drop_while, join_lines,
}
use smartfs.Syntax.Nodes.{
  extract_ast_nodes, nodes_from, declared, extract_decl_name, block_end, brace_end, count_char,
}
use smartfs.Syntax.Nodes.Extents.{Extracted, extract_ast_nodes-Extracted}
use smartfs.Tests.Commits.{up}
use smartfs.Tests.Inodes.{entry, tables}
use smartfs.Tests.Files.{dirty, mount, pipe}

-- `fn f()`, a comment with a brace, and the block on the next line.
abbrev code : Bytes
code =
    b'f' ∷ b'n' ∷ b' ' ∷ b'f' ∷ b'(' ∷ b')' ∷ b'/' ∷ b'/' ∷ b'{' ∷ 10 ∷ b'{' ∷ b'"' ∷ b')' ∷ b'"'
    ∷ b'}' ∷ 10 ∷ []

-- `fn f<'a>(`: the quote of a lifetime opens a literal that has no end.
abbrev lifetime : Bytes
lifetime = b'f' ∷ b'<' ∷ 39 ∷ b'a' ∷ b'>' ∷ b'(' ∷ b')' ∷ 10 ∷ []

-- `1 // 2)` in Python: the floor division is taken for a comment.
abbrev floor_division : Bytes
floor_division = b'(' ∷ b'1' ∷ b'/' ∷ b'/' ∷ b'2' ∷ b')' ∷ 10 ∷ []

code_accepted : validate_balanced_delimiters code rust ≡ ok tt
unfolding validate_balanced_delimiters scan token after_token skip_line skip_string pop_for opener
code_accepted = refl

lifetime_refused : validate_balanced_delimiters lifetime rust ≡ err syntax_error
unfolding validate_balanced_delimiters scan token after_token skip_line skip_string pop_for opener
lifetime_refused = refl

floor_division_refused : validate_balanced_delimiters floor_division python ≡ err syntax_error
unfolding validate_balanced_delimiters scan token after_token skip_line skip_string pop_for opener
floor_division_refused = refl

language_detected : detect_syntax_language (b'm' ∷ b'.' ∷ b'R' ∷ b's' ∷ []) ≡ some rust
unfolding detect_syntax_language language_of lower last_part ascii_lower bytes_beq
language_detected = refl

validate_balanced_delimiters_exact_example :
    (validate_balanced_delimiters code rust ≡ ok tt) ↔ IsBalanced rust code
validate_balanced_delimiters_exact_example = validate_balanced_delimiters_exact rust code

scan_ends_example : (r : Result (Unit {0})) × (scan 17 rust [] code ≡ some r)
scan_ends_example = scan_ends 17 rust code [] (ground arith)

abbrev is_blank_char : ℕ → Bool
is_blank_char c = c == b' '

abbrev is_letter : ℕ → Bool
is_letter c = c == b'f'

abbrev same : Bytes → Bytes
same s = s

-- The function of the text has both lines.
function_found :
    extract_ast_nodes is_blank_char is_letter same code rust
    ≡ record {
      kind = b'f' ∷ b'u' ∷ b'n' ∷ b'c' ∷ b't' ∷ b'i' ∷ b'o' ∷ b'n' ∷ [];
      name = b'f' ∷ [];
      start_line = 1;
      end_line = 2;
      source =
          b'f' ∷ b'n' ∷ b' ' ∷ b'f' ∷ b'(' ∷ b')' ∷ b'/' ∷ b'/' ∷ b'{' ∷ 10 ∷ b'{' ∷ b'"' ∷ b')'
          ∷ b'"' ∷ b'}' ∷ [];
      content_hash =
          b'f' ∷ b'n' ∷ b' ' ∷ b'f' ∷ b'(' ∷ b')' ∷ b'/' ∷ b'/' ∷ b'{' ∷ 10 ∷ b'{' ∷ b'"' ∷ b')'
          ∷ b'"' ∷ b'}' ∷ [];
    }
      ∷ []
unfolding extract_ast_nodes lines_from nodes_from declared extract_decl_name after_keyword
    strip_prefix take_while drop_while block_end brace_end count_char join_lines
function_found = refl

lines_count : length (lines code) < 2 ^ 31
unfolding lines_from
lines_count = ground arith

extract_ast_nodes-Extracted_example :
    Extracted same (lines code) 0 (extract_ast_nodes is_blank_char is_letter same code rust)
extract_ast_nodes-Extracted_example =
    extract_ast_nodes-Extracted is_blank_char is_letter same rust code lines_count

-- The written handle's file is named `f.rs`.
abbrev rust_mount : Mount
rust_mount = record mount {
  pipe = record pipe {
    world = record {
      db = tables (
          (1, entry 1 1 none [] true)
          ∷ (11, entry 11 3 (some 1) (b'f' ∷ b'.' ∷ b'r' ∷ b's' ∷ []) false)
          ∷ []);
      queue = [];
      blobs = [];
    };
  };
}

abbrev checks : Checker
checks = syntax_checker (λ s. true) same is_blank_char is_letter same

flush_accepts-IsBalanced_example :
    (((flush checks up 3 1 rust_mount).1 ≡ reply tt) × IsBalanced rust (1 ∷ 2 ∷ []))
    ⊎ ((flush checks up 3 1 rust_mount ≡ (rust_mount, error eacces))
        × ¬ IsBalanced rust (1 ∷ 2 ∷ []))
unfolding get_handle lookup inode_lookup_by_ino find_ino find_row detect_syntax_language language_of
    lower last_part ascii_lower bytes_beq
flush_accepts-IsBalanced_example =
    flush_accepts-IsBalanced (λ s. true) same is_blank_char is_letter same up 3 1 rust_mount dirty
      (1 ∷ 2 ∷ []) (11, entry 11 3 (some 1) (b'f' ∷ b'.' ∷ b'r' ∷ b's' ∷ []) false) rust refl refl
      refl refl refl (λ e. ground (arith, e)) refl
