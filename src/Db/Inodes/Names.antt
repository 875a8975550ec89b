-- ===== src/Db/Inodes/Names.antt =====
-- The names of a tree as a function from a directory and a name to an inode, and what the operations
-- do to it (crates/smartfs-db/src/inodes.rs).
use mathlib.Core.Path.{fun_ext}
use smartfs.Base.{
  ℕ, ◌≡◌, refl, Bool, true, false, ◌&&◌, Option, none, some, lookup, insert, remove, modify, nat_eq,
  bytes_eq, ◌==◌, if◌then◌else◌, arith, inl, inr, Bool-cases, Option-cases, lookup-remove,
  remove-absent, Bytes,
}
use smartfs.Db.Models.{Db, Inode}
use smartfs.Db.Inodes.{is_entry, find_entry, Drawn, admits_entry, admits_key, remaining, delete_row}
use smartfs.Db.Inodes.Rows.{
  key_of, find_row-modify, find_row, find_row_sound, find_row_unique, find_row_absent,
}
use smartfs.Db.Inodes.Cascade.{IsLeaf, remaining_leaf}
use smartfs.Db.Inodes.Tree.{IsTree, KeepsKeys, remaining-IsTree}
use smartfs.Db.Inodes.Insertions.{Created}

-- A directory as a client sees it: from a parent and a name to the inode there, if there is one.
abbrev pub Names : Type 0
Names = ℕ → Bytes → Option ℕ

unfoldable pub names_of : Db → Names
names_of d parent name = key_of (find_entry (some parent) name d)

-- The function, changed at one name.
abbrev pub bind : ℕ → Bytes → Option ℕ → Names → Names
bind parent name v f q n = if parent == q && name == n then v else f q n

-- The function without the names of one inode.
abbrev pub hide : ℕ → Option ℕ → Option ℕ
hide id none = none
hide id (some k) = if k == id then none else some k

abbrev pub unbind : ℕ → Names → Names
unbind id f q n = hide id (f q n)

module _ (d : Db) (t : IsTree d.inodes) where
  pub names_some :
      (q k : ℕ) (n : Bytes) (i : Inode)
      → lookup k d.inodes ≡ some i
      → is_entry (some q) n i ≡ true
      → names_of d q n ≡ some k
  unfolding names_of find_entry
  names_some q k n i e x =
      let found =
        find_row_unique (is_entry (some q) n) d.inodes k i t.distinct e x
          (λ j w f y. t.names j k q n w i f e y x) in
      rw (names_of, found) refl

  pub names_none :
      (q : ℕ) (n : Bytes)
      → ((k : ℕ) (i : Inode) → lookup k d.inodes ≡ some i → is_entry (some q) n i ≡ false)
      → names_of d q n ≡ none
  unfolding names_of find_entry
  names_none q n h = rw (names_of, find_row_absent (is_entry (some q) n) d.inodes t.distinct h) refl

  pub names_sound :
      (q k : ℕ) (n : Bytes)
      → names_of d q n ≡ some k
      → (i : Inode) × (lookup k d.inodes ≡ some i) × (is_entry (some q) n i ≡ true)
  unfolding names_of find_entry
  names_sound q k n e = elim (Option-cases (find_row (is_entry (some q) n) d.inodes)) [
    | inl f ↦ ground (arith, f, e)
    | inr ((j, i), f) ↦
        let found = find_row_sound (is_entry (some q) n) d.inodes j i t.distinct f in
        (i, ground (arith, f, e, found), found.1)
  ]

  pub names_complete :
      (q k : ℕ) (n : Bytes) (i : Inode)
      → names_of d q n ≡ none
      → lookup k d.inodes ≡ some i
      → is_entry (some q) n i ≡ false
  names_complete q k n i e h = elim (Bool-cases (is_entry (some q) n i)) [
    | inl x ↦ ground (arith, names_some q k n i h x, e)
    | inr x ↦ x
  ]

module _ (drawn : Drawn) (row : Inode) (d : Db) where
  find_row-insert :
      (q : Inode → Bool)
      → lookup drawn.id d.inodes ≡ none
      → find_row q (insert drawn.id row d.inodes)
        ≡ (if q row then some (drawn.id, row) else find_row q d.inodes)
  unfolding find_row insert
  find_row-insert q h = rw (remove-absent drawn.id d.inodes h) refl

  is_entry-bind :
      (q p : ℕ) (n : Bytes)
      → row.parent_id ≡ some p
      → is_entry (some q) n row ≡ (p == q && row.name == n)
  unfolding is_entry
  is_entry-bind q p n e = ground (arith, e, nat_eq.beq_iff p q, nat_eq.beq_iff q p)

  -- A creation that succeeds binds the name, which was free, to the new inode, and no other name.
  pub names_of-Created :
      (e : Db) (r : ℕ × Inode) (parent : ℕ)
      → row.parent_id ≡ some parent
      → Created drawn row d e r
      → (names_of d parent row.name ≡ none)
        × (names_of e ≡ bind parent row.name (some drawn.id) (names_of d))
  unfolding names_of find_entry admits_entry admits_key
  names_of-Created e r parent f c = (
    ground (arith, c.entry, f),
    fun_ext λ q. fun_ext λ n.
        let new : lookup drawn.id d.inodes ≡ none = ground (arith, c.key) in
        ground (
          arith,
          f,
          c.table,
          find_row-insert (is_entry (some q) n) new,
          is_entry-bind q parent n f,
        ),
  )

-- Whoever has a name once the inode that had it is deleted: nobody.
only_owner :
    (d : Db) (q j k : ℕ) (n : Bytes) (i x : Inode)
    → IsTree d.inodes
    → lookup k d.inodes ≡ some x
    → is_entry (some q) n x ≡ true
    → lookup j (remove k d.inodes) ≡ some i
    → is_entry (some q) n i ≡ false
only_owner d q j k n i x t e f h = elim (Bool-cases (is_entry (some q) n i)) [
  | inl y ↦
      ground
        (arith, lookup-remove k j d.inodes, h, e, f, y, t.names j k q n i x, nat_eq.beq_iff k j)
  | inr y ↦ y
]

-- The deletion of a row that is nobody's parent unbinds it.
pub names_of-delete_row :
    (id : ℕ) (d : Db)
    → IsTree d.inodes
    → IsLeaf id d.inodes
    → names_of (delete_row id d) ≡ unbind id (names_of d)
unfolding delete_row
names_of-delete_row id d t leaf = fun_ext λ q. fun_ext λ n.
    let e : Db = delete_row id d in
    let te : IsTree e.inodes = remaining-IsTree id d.inodes t in
    let same : remaining id d.inodes ≡ remove id d.inodes =
      remaining_leaf id d.inodes t.distinct t.parents leaf in
    elim (Option-cases (names_of d q n)) [
      | inl f ↦
          let g = names_none e te q n (λ k i h.
            names_complete d t q k n i f (ground (arith, h, same, lookup-remove id k d.inodes))) in
          rw (f, g) refl
      | inr (k, f) ↦
          let x = names_sound d t q k n f in
          elim (Bool-cases (k == id)) [
            | inl s ↦
                let g = names_none e te q n (λ j i h.
                  only_owner d q j k n i x.0 t x.1 x.2
                    (ground (arith, h, same, s, nat_eq.beq_iff k id))) in
                rw (f, g, s) refl
            | inr s ↦
                let g =
                  names_some e te q k n x.0
                    (ground (
                      arith,
                      same,
                      s,
                      x.1,
                      lookup-remove id k d.inodes,
                      nat_eq.beq_iff id k,
                      nat_eq.beq_iff k id,
                    ))
                    x.2 in
                rw (f, g, s) refl
          ]
    ]

-- An update that leaves the key columns changes no name.
pub names_of-modify :
    (f : Inode → Inode) (keep : KeepsKeys f) (id : ℕ) (d e : Db)
    → e.inodes ≡ modify id f d.inodes
    → names_of e ≡ names_of d
unfolding names_of find_entry is_entry
names_of-modify f keep id d e h = fun_ext λ q. fun_ext λ n. rw (h) (
    find_row-modify (is_entry (some q) n) f id d.inodes
      (λ v. ground (arith, keep.parent v, keep.name v)))

-- Nor does a step that leaves the table.
pub names_of_same : (d e : Db) → e.inodes ≡ d.inodes → names_of e ≡ names_of d
unfolding names_of find_entry
names_of_same d e h = fun_ext λ q. fun_ext λ n. rw (h) refl
