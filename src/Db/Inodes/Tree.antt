-- ===== src/Db/Inodes/Tree.antt =====
-- The well-formedness of `inode_registry`, which its constraints keep, and that each operation keeps
-- it (crates/smartfs-db/src/inodes.rs).
use smartfs.Base.{
  ℕ, ◌≡◌, true, Option, some, Map, lookup, modify, Distinct, nat_eq, bytes_eq, arith, inl, inr,
  Option-cases, modify-Distinct, lookup-modify, Bytes,
}
use smartfs.Db.Models.{Inode}
use smartfs.Db.Inodes.{is_entry, has_parent, remaining}
use smartfs.Db.Inodes.Cascade.{HasParents, remaining-Deleted}

pub is_entry_sound :
    (p : ℕ) (name : Bytes) (i : Inode)
    → is_entry (some p) name i ≡ true
    → (i.parent_id ≡ some p) × (i.name ≡ name)
unfolding is_entry
is_entry_sound p name i h = elim (Option-cases i.parent_id) [
  | inl e ↦ ground (arith, e, h)
  | inr (q, e) ↦ ground (arith, e, h, nat_eq.beq_iff p q, bytes_eq.beq_iff i.name name)
]

pub is_entry_self :
    (p : ℕ) (name : Bytes) (i : Inode)
    → i.parent_id ≡ some p
    → i.name ≡ name
    → is_entry (some p) name i ≡ true
unfolding is_entry
is_entry_self p name i e f = ground (arith, e, f, nat_eq.beq_iff p p, bytes_eq.beq_iff i.name name)

-- Two rows with the same parent, which is not NULL, and the same name are one row.
abbrev pub HasUniqueNames : Map ℕ Inode → Type 0
HasUniqueNames rows =
    (j k p : ℕ) (name : Bytes) (v w : Inode)
    → lookup j rows ≡ some v
    → lookup k rows ≡ some w
    → is_entry (some p) name v ≡ true
    → is_entry (some p) name w ≡ true
    → j ≡ k

abbrev pub HasUniqueNumbers : Map ℕ Inode → Type 0
HasUniqueNumbers rows =
    (j k : ℕ) (v w : Inode)
    → lookup j rows ≡ some v
    → lookup k rows ≡ some w
    → v.ino ≡ w.ino
    → j ≡ k

pub record IsTree (rows : Map ℕ Inode) : Type 0 where
  pub distinct : Distinct rows
  pub names : HasUniqueNames rows
  pub numbers : HasUniqueNumbers rows
  pub parents : HasParents rows

-- Rows that are a part of those of a tree, with their parents, are a tree.
pub part-IsTree :
    (rows part : Map ℕ Inode)
    → IsTree rows
    → Distinct part
    → HasParents part
    → ((k : ℕ) (i : Inode) → lookup k part ≡ some i → lookup k rows ≡ some i)
    → IsTree part
part-IsTree rows part t d h sub = record {
  distinct = d;
  names = λ j k p name v w e f. t.names j k p name v w (sub j v e) (sub k w f);
  numbers = λ j k v w e f. t.numbers j k v w (sub j v e) (sub k w f);
  parents = h;
}

pub remaining-IsTree : (id : ℕ) (rows : Map ℕ Inode) → IsTree rows → IsTree (remaining id rows)
remaining-IsTree id rows t =
    let x = remaining-Deleted id rows t.distinct in
    part-IsTree rows (remaining id rows) t x.distinct x.parents x.unchanged

-- An update that leaves the key columns.
pub record KeepsKeys (f : Inode → Inode) : Type 0 where
  pub ino : (i : Inode) → (f i).ino ≡ i.ino
  pub parent : (i : Inode) → (f i).parent_id ≡ i.parent_id
  pub name : (i : Inode) → (f i).name ≡ i.name

module _ (f : Inode → Inode) (keep : KeepsKeys f) (id : ℕ) (rows : Map ℕ Inode) where
  -- A row of the updated table, as it was.
  pub before_modify :
      (k : ℕ) (v : Inode)
      → lookup k (modify id f rows) ≡ some v
      → (u : Inode) × (lookup k rows ≡ some u)
        × (v.ino ≡ u.ino)
        × (v.parent_id ≡ u.parent_id)
        × (v.name ≡ u.name)
  before_modify k v e = elim (Option-cases (lookup k rows)) [
    | inl h ↦ ground (arith, lookup-modify f id k rows, h, e)
    | inr (u, h) ↦ (
      u,
      h,
      ground (arith, lookup-modify f id k rows, h, e, keep.ino u),
      ground (arith, lookup-modify f id k rows, h, e, keep.parent u),
      ground (arith, lookup-modify f id k rows, h, e, keep.name u),
    )
  ]

  has_parent-modify :
      (i : Inode) → has_parent rows i ≡ true → has_parent (modify id f rows) i ≡ true
  unfolding has_parent
  has_parent-modify i h = elim (Option-cases i.parent_id) [
    | inl e ↦ ground (arith, e)
    | inr (p, e) ↦ elim (Option-cases (lookup p rows)) [
      | inl g ↦ ground (arith, e, g, h)
      | inr (u, g) ↦ ground (arith, e, g, lookup-modify f id p rows)
    ]
  ]

  is_entry_same :
      (parent : Option ℕ) (name : Bytes) (v u : Inode)
      → v.parent_id ≡ u.parent_id
      → v.name ≡ u.name
      → is_entry parent name v ≡ is_entry parent name u
  unfolding is_entry
  is_entry_same parent name v u e g = ground (arith, e, g)

  has_parent_same :
      (m : Map ℕ Inode) (v u : Inode) → v.parent_id ≡ u.parent_id → has_parent m v ≡ has_parent m u
  unfolding has_parent
  has_parent_same m v u e = rw e

  pub modify-IsTree : IsTree rows → IsTree (modify id f rows)
  modify-IsTree t = record {
    distinct = modify-Distinct f id rows t.distinct;
    names = λ j k p name v w e g a b.
        let x = before_modify j v e in
        let y = before_modify k w g in
        t.names j k p name x.0 y.0 x.1 y.1
          (ground (arith, a, is_entry_same (some p) name v x.0 x.3 x.4))
          (ground (arith, b, is_entry_same (some p) name w y.0 y.3 y.4));
    numbers = λ j k v w e g a.
        let x = before_modify j v e in
        let y = before_modify k w g in t.numbers j k x.0 y.0 x.1 y.1 (ground (arith, a, x.2, y.2));
    parents = λ k v e.
        let x = before_modify k v e in
        ground (
          arith,
          has_parent-modify x.0 (t.parents k x.0 x.1),
          has_parent_same (modify id f rows) v x.0 x.3,
        );
  }
