-- ===== src/Fuse/Checked.antt =====
-- `flush` and a rename with the checks of syntax.rs (crates/smartfs-fuse/src/fs.rs, syntax.rs). How
-- bytes are read as text (`String::from_utf8_lossy`) and serde_json's verdict are parameters.
use smartfs.Base.{
  ℕ, ◌≡◌, ◌≢◌, ◌⊎◌, refl, Bool, true, false, Option, none, some, Bytes, arith, inl, inr,
}
use smartfs.Schema.Error.{Result, ok, err, syntax_error, eacces}
use smartfs.Db.Models.{Inode, Env}
use smartfs.Db.Inodes.{inode_lookup_by_ino}
use smartfs.Handles.{OpenHandle, get_handle}
use smartfs.Fuse.{Mount, reply, error, Checker, db_of}
use smartfs.Fuse.Io.{flush}
use smartfs.Syntax.{
  Language, rust, python, javascript, typescript, go, json, detect_syntax_language, validate_syntax,
  validate_balanced_delimiters,
}
use smartfs.Syntax.Balance.{
  IsBalanced, validate_balanced_delimiters_exact, validate_balanced_delimiters-cases,
}
use smartfs.Syntax.Nodes.{validate_and_extract_ast_blocking}

abbrev is_some : Option Language → Bool
is_some none = false
is_some (some lang) = true

module _ (json_valid : Bytes → Bool) (from_utf8_lossy : Bytes → Bytes)
    (is_whitespace is_alphanumeric : ℕ → Bool) (hash : Bytes → Bytes) where
  -- The checks that the callbacks make.
  abbrev pub syntax_checker : Checker
  syntax_checker = record {
    detects = λ name. is_some (detect_syntax_language name);
    extract = λ bytes name.
        validate_and_extract_ast_blocking is_whitespace is_alphanumeric hash json_valid
          (from_utf8_lossy bytes) name;
  }

  ok_is_no_err : (r : Result (Unit {0})) → r ≡ ok tt → r ≡ err syntax_error → ⊥
  ok_is_no_err r a b = ground (arith, a, b)

  validate_syntax_balanced :
      (code : Bytes) (lang : Language)
      → lang ≢ json
      → validate_syntax json_valid code lang ≡ validate_balanced_delimiters code lang
  unfolding validate_syntax
  validate_syntax_balanced code rust h = refl
  validate_syntax_balanced code python h = refl
  validate_syntax_balanced code javascript h = refl
  validate_syntax_balanced code typescript h = refl
  validate_syntax_balanced code go h = refl
  validate_syntax_balanced code json h = elim (h refl) [ ]

  module _ (env : Env) (ino fh : ℕ) (m : Mount) (h : OpenHandle) (bytes : Bytes) (row : ℕ × Inode)
      (lang : Language) (open_one : get_handle fh m.state ≡ some h) (dirty : h.modified ≡ true)
      (held : h.buffer ≡ some bytes) (found : inode_lookup_by_ino env ino (db_of m) ≡ ok (some row))
      (detected : detect_syntax_language row.1.name ≡ some lang) (other : lang ≢ json)
      (strict : m.force ≡ false) where
    flush_accepted :
        validate_balanced_delimiters (from_utf8_lossy bytes) lang ≡ ok tt
        → (flush syntax_checker env ino fh m).1 ≡ reply tt
    unfolding flush validate_and_extract_ast_blocking
    flush_accepted e =
        rw
          (
            flush,
            open_one,
            dirty,
            held,
            found,
            validate_and_extract_ast_blocking,
            detected,
            validate_syntax_balanced (from_utf8_lossy bytes) lang other,
            e,
          )
          refl

    flush_refused :
        validate_balanced_delimiters (from_utf8_lossy bytes) lang ≡ err syntax_error
        → flush syntax_checker env ino fh m ≡ (m, error eacces)
    unfolding flush validate_and_extract_ast_blocking
    flush_refused e =
        rw
          (
            flush,
            open_one,
            dirty,
            held,
            found,
            validate_and_extract_ast_blocking,
            detected,
            validate_syntax_balanced (from_utf8_lossy bytes) lang other,
            e,
            strict,
          )
          refl

    -- In a mount that does not force writes, `flush` of a modified handle of a file of one of the
    -- languages other than JSON is accepted if the comments and literals of its text have an end and
    -- the delimiters outside of them are balanced. Otherwise it is refused with EACCES, and the mount
    -- is as it was.
    pub flush_accepts-IsBalanced :
        (((flush syntax_checker env ino fh m).1 ≡ reply tt)
          × IsBalanced lang (from_utf8_lossy bytes))
        ⊎ ((flush syntax_checker env ino fh m ≡ (m, error eacces))
            × ¬ IsBalanced lang (from_utf8_lossy bytes))
    flush_accepts-IsBalanced =
        elim (validate_balanced_delimiters-cases (from_utf8_lossy bytes) lang) [
          | inl e ↦ inl (
            flush_accepted e,
            (validate_balanced_delimiters_exact lang (from_utf8_lossy bytes)).0 e,
          )
          | inr e ↦ inr (
            flush_refused e,
            λ w.
                ok_is_no_err (validate_balanced_delimiters (from_utf8_lossy bytes) lang)
                  ((validate_balanced_delimiters_exact lang (from_utf8_lossy bytes)).1 w) e,
          )
        ]
