-- ===== src/Fuse/Listing.antt =====
-- That a directory's listing and its lookups agree (crates/smartfs-fuse/src/fs.rs, `readdir` and
-- `lookup`).
use smartfs.Base.{
  ℕ, ◌+◌, ◌≡◌, refl, Bool, true, false, not, ◌&&◌, Option, some, List, [], ◌∷◌, Bytes, ◌||◌, lookup,
  Map, Distinct, nat_eq, bytes_eq, ◌==◌, arith, ◌↔◌, inl, inr, Bool-cases, Option-cases, sym, ap,
  ◌∙◌, drop,
}
use smartfs.Schema.Error.{ok, Result-cases}
use smartfs.Db.Models.{Inode, Env, select_inode}
use smartfs.Db.Inodes.{
  same_parent, is_entry, find_entry, children_of, insert_by_ino, inode_lookup, inode_list_children,
  inode_lookup_by_ino,
}
use smartfs.Db.Inodes.Rows.{find_row, find_row_sound, find_row_unique}
use smartfs.Db.Inodes.Tree.{IsTree, is_entry_sound}
use smartfs.Handles.{is_marked_for_deletion}
use smartfs.Fuse.{Mount, db_of, find_by_ino}
use smartfs.Fuse.Lookups.{
  DirEntry, listed_children, not_marked, all_entries, find_child, parent_ino,
}

abbrev Row : Type 0
Row = ℕ × Inode

-- Whether a row of a list passes a test.
any : (Row → Bool) → List Row → Bool
any q [] = false
any q (x ∷ l) = q x || any q l

any-insert_by_ino :
    (q : Row → Bool) (x : Row) (l : List Row) → any q (insert_by_ino x l) ≡ (q x || any q l)
unfolding any insert_by_ino
any-insert_by_ino q x [] = refl
any-insert_by_ino q x (y ∷ l) = ground (arith, any-insert_by_ino q x l)

any-children_of :
    (q : Row → Bool) (parent : Option ℕ) (rows : Map ℕ Inode)
    → any q (children_of parent rows) ≡ any (λ r. same_parent parent r.1.parent_id && q r) rows
unfolding any children_of
any-children_of q parent [] = refl
any-children_of q parent ((id, i) ∷ rest) =
    ground
      (arith, any-children_of q parent rest, any-insert_by_ino q (id, i) (children_of parent rest))

any-not_marked :
    (q : Row → Bool) (m : Mount) (l : List Row)
    → any q (not_marked m l) ≡ any (λ r. not (is_marked_for_deletion r.0 m.state) && q r) l
unfolding any not_marked
any-not_marked q m [] = refl
any-not_marked q m ((id, i) ∷ rest) = ground (arith, any-not_marked q m rest)

-- Whether a listing holds an entry with this name and number.
unfoldable pub lists : Bytes → ℕ → List DirEntry → Bool
lists name ino [] = false
lists name ino (e ∷ l) = (e.name == name && e.ino == ino) || lists name ino l

abbrev named : Bytes → ℕ → Row → Bool
named name ino r = r.1.name == name && r.1.ino == ino

lists-listed_children :
    (name : Bytes) (ino offset : ℕ) (l : List Row)
    → lists name ino (listed_children offset l) ≡ any (named name ino) l
unfolding lists any listed_children
lists-listed_children name ino offset [] = refl
lists-listed_children name ino offset ((id, i) ∷ rest) =
    ground (arith, lists-listed_children name ino (offset + 1) rest)

no_row : false ≡ true → ⊥
no_row h = ground (arith, h)

any_sound :
    (q : Row → Bool) (rows : Map ℕ Inode)
    → Distinct rows
    → any q rows ≡ true
    → (r : Row) × (lookup r.0 rows ≡ some r.1) × (q r ≡ true)
unfolding any lookup
any_sound q [] d h = elim (no_row h) [ ]
any_sound q ((id, i) ∷ rest) d h = elim (Bool-cases (q (id, i))) [
  | inl e ↦ ((id, i), ground (arith, nat_eq.beq_iff id id), e)
  | inr e ↦
      let (r, there, passes) = any_sound q rest d.1 (ground (arith, e, h)) in
      (r, ground (arith, there, d.0, nat_eq.beq_iff id r.0), passes)
]

any_complete :
    (q : Row → Bool) (rows : Map ℕ Inode) (id : ℕ) (i : Inode)
    → lookup id rows ≡ some i
    → q (id, i) ≡ true
    → any q rows ≡ true
unfolding any lookup
any_complete q [] id i e h = cc
any_complete q ((j, v) ∷ rest) id i e h =
    ground (arith, any_complete q rest id i, e, h, nat_eq.beq_iff j id)

-- The rows of a directory that a listing shows under a name.
abbrev shown : Mount → ℕ → Bytes → ℕ → Row → Bool
shown m dir name ino r =
    same_parent (some dir) r.1.parent_id
    && (not (is_marked_for_deletion r.0 m.state) && named name ino r)

shown-is_entry :
    (m : Mount) (dir : ℕ) (name : Bytes) (k id : ℕ) (i : Inode)
    → shown m dir name k (id, i) ≡ true
    → is_entry (some dir) name i ≡ true
unfolding is_entry
shown-is_entry m dir name k id i h = ground (arith, h)

module _ (env : Env) (ino dir : ℕ) (x : Inode) (m : Mount) (entries : List DirEntry)
    (found : find_by_ino env ino m ≡ ok (dir, x))
    (listed : all_entries env ino m ≡ ok entries) where
  database_up : env.sql_fails select_inode ≡ false
  unfolding find_by_ino inode_lookup_by_ino
  database_up = elim (Bool-cases (env.sql_fails select_inode)) [
    | inl e ↦ ground (arith, e, found)
    | inr e ↦ e
  ]

  tail_of_listing :
      drop 2 entries ≡ listed_children 3 (not_marked m (children_of (some dir) (db_of m).inodes))
  unfolding all_entries inode_list_children
  tail_of_listing = elim (Bool-cases x.is_dir) [
    | inr e ↦ ground (arith, found, listed, e)
    | inl e ↦ elim (Result-cases (parent_ino env x m)) [
      | inl (y, f) ↦ ground (arith, found, listed, e, f)
      | inr (up, f) ↦ ground (arith, found, listed, e, f, database_up)
    ]
  ]

  -- The entries behind `.` and `..` are those of the directory's rows.
  listing :
      (name : Bytes) (k : ℕ)
      → lists name k (drop 2 entries) ≡ any (shown m dir name k) (db_of m).inodes
  listing name k =
      ap (lists name k) tail_of_listing
      ∙ lists-listed_children name k 3 (not_marked m (children_of (some dir) (db_of m).inodes))
      ∙ any-not_marked (named name k) m (children_of (some dir) (db_of m).inodes)
      ∙ any-children_of _ (some dir) (db_of m).inodes

  abbrev pub IsLooked : Bytes → ℕ → Type 0
  IsLooked name k =
      (r : ℕ × Inode) × (find_child env dir name m ≡ ok r)
      × (is_marked_for_deletion r.0 m.state ≡ false)
      × (r.1.ino ≡ k)

  shown-IsLooked :
      (name : Bytes) (k : ℕ) (r : ℕ × Inode)
      → IsTree (db_of m).inodes
      → lookup r.0 (db_of m).inodes ≡ some r.1
      → shown m dir name k r ≡ true
      → IsLooked name k
  unfolding find_child inode_lookup find_entry
  shown-IsLooked name k (id, i) t there h =
      let entry : is_entry (some dir) name i ≡ true = shown-is_entry m dir name k id i h in
      let row =
        find_row_unique (is_entry (some dir) name) (db_of m).inodes id i t.distinct there entry
          (λ j w f y. t.names j id dir name w i f there y entry) in
      (
        (id, i),
        ground (arith, row, database_up),
        ground (arith, h),
        ground (arith, h, nat_eq.beq_iff i.ino k),
      )

  IsLooked-shown :
      (name : Bytes) (k : ℕ)
      → IsTree (db_of m).inodes
      → IsLooked name k
      → any (shown m dir name k) (db_of m).inodes ≡ true
  unfolding find_child inode_lookup find_entry
  IsLooked-shown name k t ((id, i), e, unmarked, same) =
      elim (Option-cases (find_row (is_entry (some dir) name) (db_of m).inodes)) [
        | inl f ↦ ground (arith, e, f, database_up)
        | inr ((j, w), f) ↦
            let row = find_row_sound (is_entry (some dir) name) (db_of m).inodes j w t.distinct f in
            let keys = is_entry_sound dir name w row.1 in
            let one : (j ≡ id) × (w ≡ i) = ground (arith, e, f, database_up) in
            any_complete (shown m dir name k) (db_of m).inodes id i (ground (arith, row, one)) (
              ground (
                arith,
                keys,
                one,
                unmarked,
                same,
                nat_eq.beq_iff dir dir,
                bytes_eq.beq_iff i.name name,
                nat_eq.beq_iff i.ino k,
              ))
      ]

  -- In a well-formed table, the listing of a directory that is read to its end holds, behind `.` and
  -- `..`, an entry with a name and a number exactly when a lookup of that name below the directory
  -- finds an inode with that number that is not marked for deletion.
  pub listing_agrees_with_lookup :
      IsTree (db_of m).inodes
      → (name : Bytes) (k : ℕ) → (lists name k (drop 2 entries) ≡ true) ↔ IsLooked name k
  listing_agrees_with_lookup t name k = (
    λ h.
        let (r, there, passes) =
          any_sound (shown m dir name k) (db_of m).inodes t.distinct (sym (listing name k) ∙ h) in
        shown-IsLooked name k r t there passes,
    λ h. listing name k ∙ IsLooked-shown name k t h,
  )
