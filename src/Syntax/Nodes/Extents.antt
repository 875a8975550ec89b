-- ===== src/Syntax/Nodes/Extents.antt =====
-- The lines of the declarations that are extracted, and that the loop comes to its end
-- (crates/smartfs-fuse/src/syntax.rs, `extract_ast_nodes`).
use smartfs.Base.{
  ℕ, zero, suc, ◌+◌, ◌-◌, ◌^◌, ◌≤◌, ◌<◌, ◌≡◌, refl, sym, Bool, Option, some, List, [], ◌∷◌, Bytes,
  length, drop, take, nat_eq, arith, length-drop, inl, inr, Option-cases, List-cases, ap, ◌∙◌,
}
use smartfs.Db.Models.{AstNodeInsert}
use smartfs.Syntax.{Language}
use smartfs.Syntax.Text.{lines, join_lines}
use smartfs.Syntax.Nodes.{
  Extent, brace_block, indent_block, get_indent, count_char, brace_end, indent_end, block_end, trim,
  declarations, declared, make_ast_node, block_source, as_i32, with_node, nodes_from,
  extract_ast_nodes,
}

-- Of the lines `all`, from the one after `last` on: each node is a range of lines, the text of these
-- lines is its source, and the next node starts behind it.
abbrev pub Extracted : (Bytes → Bytes) → List Bytes → ℕ → List AstNodeInsert → Type 0
Extracted hash all last [] = Unit
Extracted hash all last (node ∷ nodes) =
    (last < node.start_line)
    × (node.start_line ≤ node.end_line)
    × (node.end_line ≤ length all)
    × (node.source
        ≡ join_lines (take (suc node.end_line - node.start_line) (drop (node.start_line - 1) all)))
    × (node.content_hash ≡ hash node.source)
    × Extracted hash all node.end_line nodes

brace_end_bounds :
    (idx opened closed end_idx m : ℕ) (ls : List Bytes)
    → end_idx ≤ idx
    → end_idx < m
    → idx + length ls ≤ m
    → (end_idx ≤ brace_end idx opened closed end_idx ls)
      × (brace_end idx opened closed end_idx ls < m)
unfolding brace_end
brace_end_bounds idx opened closed end_idx m [] h k l = (omega arith, k)
brace_end_bounds idx opened closed end_idx m (line ∷ rest) h k l =
    let ih =
      brace_end_bounds (suc idx) (opened + count_char b'{' line) (closed + count_char b'}' line) idx
        m rest (omega arith) (omega (arith, l)) (omega (arith, l)) in
    (ground (arith, h, l, ih), ground (arith, h, l, ih))

module _ (is_whitespace : ℕ → Bool) where
  indent_end_bounds :
      (k idx end_idx : ℕ) (ls : List Bytes)
      → end_idx < idx
      → (end_idx ≤ indent_end is_whitespace k idx end_idx ls)
        × (indent_end is_whitespace k idx end_idx ls < idx + length ls)
  unfolding indent_end
  indent_end_bounds k idx end_idx [] h = (omega arith, omega (arith, h))
  indent_end_bounds k idx end_idx (line ∷ rest) h =
      let skipped = indent_end_bounds k (suc idx) end_idx rest (omega (arith, h)) in
      let taken = indent_end_bounds k (suc idx) idx rest (omega arith) in
      (ground (arith, h, skipped, taken), ground (arith, h, skipped, taken))

  block_end_bounds :
      (x : Extent) (start : ℕ) (line : Bytes) (rest : List Bytes)
      → (start ≤ block_end is_whitespace x start line rest)
        × (block_end is_whitespace x start line rest < start + length (line ∷ rest))
  unfolding block_end
  block_end_bounds brace_block start line rest =
      brace_end_bounds start 0 0 start (start + length (line ∷ rest)) (line ∷ rest) (omega arith)
        (omega arith) (omega arith)
  block_end_bounds indent_block start line rest =
      let b = indent_end_bounds (get_indent line) (suc start) start rest (omega arith) in
      (b.0, omega (arith, b.1))

as_i32_lem : (n : ℕ) → n ≤ 2 ^ 31 → as_i32 n ≡ n
as_i32_lem n h = omega (arith, h)

block_source_range :
    (all : List Bytes) (i e : ℕ)
    → block_source all i e ≡ join_lines (take (suc (e + 1) - (i + 1)) (drop ((i + 1) - 1) all))
block_source_range all i e = rw (range, first) refl
  where
    range : suc (e + 1) - (i + 1) ≡ suc e - i
    range = omega arith

    first : (i + 1) - 1 ≡ i
    first = omega arith

-- What one declaration adds, given what the rest of the loop gives.
node-Extracted :
    (hash : Bytes → Bytes) (all : List Bytes) (kind name : Bytes) (last i e : ℕ)
    (nodes : List AstNodeInsert)
    → length all < 2 ^ 31
    → last ≤ i
    → i ≤ e
    → e < length all
    → Extracted hash all (e + 1) nodes
    → Extracted hash all last
        (make_ast_node hash kind name (i + 1) (e + 1) (block_source all i e) ∷ nodes)
node-Extracted hash all kind name last i e nodes h o k l rest =
    rw (as_i32_lem (i + 1) (omega (arith, h, k, l)), as_i32_lem (e + 1) (omega (arith, h, l)))
      (omega (arith, o), omega (arith, k), omega (arith, l), block_source_range all i e, refl, rest)

module _ (is_whitespace is_alphanumeric : ℕ → Bool) (hash : Bytes → Bytes) (lang : Language)
    (all : List Bytes) where
  abbrev Gives : ℕ → Option (List AstNodeInsert) → Type 0
  Gives last o = (nodes : List AstNodeInsert) × (o ≡ some nodes) × Extracted hash all last nodes

  with_node-Gives :
      (kind name : Bytes) (last i e : ℕ) (o : Option (List AstNodeInsert))
      → length all < 2 ^ 31
      → last ≤ i
      → i ≤ e
      → e < length all
      → Gives (e + 1) o
      → Gives last
          (with_node (make_ast_node hash kind name (i + 1) (e + 1) (block_source all i e)) o)
  with_node-Gives kind name last i e o h k l b (nodes, given, extracted) = (
    make_ast_node hash kind name (i + 1) (e + 1) (block_source all i e) ∷ nodes,
    ap (with_node (make_ast_node hash kind name (i + 1) (e + 1) (block_source all i e))) given,
    node-Extracted hash all kind name last i e nodes h k l b extracted,
  )

  nodes_from_extracts :
      (n last i : ℕ)
      → length all < 2 ^ 31
      → last ≤ i
      → length all - i < n
      → Gives last (nodes_from is_whitespace is_alphanumeric hash n lang all i)
  unfolding nodes_from
  nodes_from_extracts zero last i h o k = elim k [ ]
  nodes_from_extracts (suc n) last i h o k = elim (List-cases (drop i all)) [
    | inl e ↦ rw (nodes_from, e) ([], refl, tt)
    | inr (line, rest, e) ↦
        let size = ap length (sym e) ∙ length-drop i all in
        elim (Option-cases
          (declared is_whitespace is_alphanumeric (declarations lang) (trim is_whitespace line))) [
            | inl f ↦
                rw (nodes_from, e, f)
                  (nodes_from_extracts n last (i + 1) h (omega (arith, o)) (omega (arith, k, size)))
            | inr ((d, name), f) ↦
                let (from, below) = block_end_bounds is_whitespace d.extent i line rest in
                rw (nodes_from, e, f)
                  (with_node-Gives d.kind name last i (block_end is_whitespace d.extent i line rest)
                    _ h o from (omega (arith, below, size))
                    (nodes_from_extracts n (block_end is_whitespace d.extent i line rest + 1)
                      (block_end is_whitespace d.extent i line rest + 1) h (omega arith)
                      (omega (arith, k, size, from))))
          ]
  ]

-- The declarations extracted from a text of fewer than 2^31 lines come in the order of their lines,
-- their ranges of lines are not empty, lie in the text and do not overlap, each one's source is the
-- text of its lines, and its hash is that of its source.
pub extract_ast_nodes-Extracted :
    (is_whitespace is_alphanumeric : ℕ → Bool) (hash : Bytes → Bytes) (lang : Language)
    (code : Bytes)
    → length (lines code) < 2 ^ 31
    → Extracted hash (lines code) 0 (extract_ast_nodes is_whitespace is_alphanumeric hash code lang)
unfolding extract_ast_nodes
extract_ast_nodes-Extracted is_whitespace is_alphanumeric hash lang code h =
    let (nodes, given, extracted) =
      nodes_from_extracts is_whitespace is_alphanumeric hash lang (lines code)
        (suc (length (lines code))) 0 0 h (omega arith) (omega arith) in
    rw given extracted

-- A round for each line and one more are enough for the loop over the lines of a text of fewer than
-- 2^31 lines.
pub nodes_from_ends :
    (is_whitespace is_alphanumeric : ℕ → Bool) (hash : Bytes → Bytes) (lang : Language)
    (all : List Bytes)
    → length all < 2 ^ 31
    → (nodes : List AstNodeInsert) × (nodes_from is_whitespace is_alphanumeric hash
          (suc (length all))
          lang
          all
          0
        ≡ some nodes)
nodes_from_ends is_whitespace is_alphanumeric hash lang all h =
    let (nodes, given, extracted) =
      nodes_from_extracts is_whitespace is_alphanumeric hash lang all (suc (length all)) 0 0 h
        (omega arith) (omega arith) in
    (nodes, given)
