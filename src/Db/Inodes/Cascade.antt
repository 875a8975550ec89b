-- ===== src/Db/Inodes/Cascade.antt =====
-- The cascade of a deletion (crates/smartfs-db/src/inodes.rs, `inode_delete` and `inode_rename`, with
-- the foreign key of migrations/001_core_schema.sql).
use smartfs.Base.{
  ℕ, zero, suc, ◌≤◌, ◌<◌, ◌≡◌, refl, Bool, true, false, none, some, [], ◌∷◌, Map, lookup, remove,
  retain, Distinct, length, nat_eq, arith, ◌⊎◌, inl, inr, Bool-cases, Option-cases, remove-Distinct,
  retain-Distinct, lookup-retain, lookup-remove, length-remove_le, subst, sym,
}
use smartfs.Db.Models.{Inode}
use smartfs.Db.Inodes.{same_parent, has_parent, cascade, remaining}

-- Every parent that a row names is in the table.
abbrev pub HasParents : Map ℕ Inode → Type 0
HasParents rows = (k : ℕ) (i : Inode) → lookup k rows ≡ some i → has_parent rows i ≡ true

-- No row names `id` as its parent.
abbrev pub IsLeaf : ℕ → Map ℕ Inode → Type 0
IsLeaf id rows =
    (k : ℕ) (i : Inode) → lookup k rows ≡ some i → same_parent (some id) i.parent_id ≡ false

module _ {ℓ} {V : Type ℓ} where
  -- A filter drops a row or changes nothing.
  retain_progress :
      (p : V → Bool) (m : Map ℕ V) → (length (retain p m) < length m) ⊎ (retain p m ≡ m)
  unfolding retain
  retain_progress p [] = inr refl
  retain_progress p ((j, v) ∷ m) = elim (Bool-cases (p v)) [
    | inl e ↦ elim (retain_progress p m) [
      | inl less ↦ inl (ground (arith, e, less))
      | inr same ↦ inr (ground (arith, e, same))
    ]
    | inr e ↦ elim (retain_progress p m) [
      | inl less ↦ inl (ground (arith, e, less))
      | inr same ↦ inl (ground (arith, e, same))
    ]
  ]

  retain_same :
      (p : V → Bool) (m : Map ℕ V)
      → Distinct m
      → ((k : ℕ) (v : V) → lookup k m ≡ some v → p v ≡ true)
      → retain p m ≡ m
  unfolding retain lookup
  retain_same p [] d all = refl
  retain_same p ((j, v) ∷ m) d all =
      let rest : retain p m ≡ m =
        retain_same p m d.1 (λ k w e. all k w (ground (arith, d.0, e, nat_eq.beq_iff j k))) in
      ground (arith, rest, all j v (ground (arith, nat_eq.beq_iff j j)))

cascade_same :
    (n : ℕ) (rows : Map ℕ Inode) → Distinct rows → HasParents rows → cascade n rows ≡ rows
unfolding cascade
cascade_same zero rows d h = refl
cascade_same (suc n) rows d h =
    rw (retain_same (has_parent rows) rows d h) (cascade_same n rows d h)

pub cascade-Distinct : (n : ℕ) (rows : Map ℕ Inode) → Distinct rows → Distinct (cascade n rows)
unfolding cascade
cascade-Distinct zero rows d = d
cascade-Distinct (suc n) rows d = cascade-Distinct n _ (retain-Distinct (has_parent rows) rows d)

-- The rows that are left are as they were.
pub cascade_keeps_rows :
    (n : ℕ) (rows : Map ℕ Inode) (k : ℕ) (i : Inode)
    → Distinct rows
    → lookup k (cascade n rows) ≡ some i
    → lookup k rows ≡ some i
unfolding cascade
cascade_keeps_rows zero rows k i d e = e
cascade_keeps_rows (suc n) rows k i d e =
    let before = cascade_keeps_rows n _ k i (retain-Distinct (has_parent rows) rows d) e in
    ground (arith, lookup-retain (has_parent rows) k rows d, before)

kept_all :
    (rows : Map ℕ Inode) → Distinct rows → retain (has_parent rows) rows ≡ rows → HasParents rows
kept_all rows d e k i h = ground (arith, lookup-retain (has_parent rows) k rows d, e, h)

HasParents-empty : (rows : Map ℕ Inode) → length rows ≤ 0 → HasParents rows
unfolding lookup
HasParents-empty [] h k i e = cc
HasParents-empty (x ∷ rows) h k i e = elim h [ ]

-- As many rounds as there are rows leave no row without its parent.
pub cascade-HasParents :
    (n : ℕ) (rows : Map ℕ Inode) → Distinct rows → length rows ≤ n → HasParents (cascade n rows)
unfolding cascade
cascade-HasParents zero rows d h = HasParents-empty rows h
cascade-HasParents (suc n) rows d h = elim (retain_progress (has_parent rows) rows) [
  | inl less ↦
      cascade-HasParents n _ (retain-Distinct (has_parent rows) rows d) (omega (arith, less, h))
  | inr same ↦
      subst HasParents (sym (rw (same) (cascade_same n rows d (kept_all rows d same))))
        (kept_all rows d same)
]

has_parent-remove :
    (id : ℕ) (rows : Map ℕ Inode) (i : Inode)
    → has_parent rows i ≡ true
    → same_parent (some id) i.parent_id ≡ false
    → has_parent (remove id rows) i ≡ true
unfolding has_parent
has_parent-remove id rows i h leaf = grind (arith, lookup-remove, h, leaf)

-- A row that is nobody's parent goes alone.
pub remaining_leaf :
    (id : ℕ) (rows : Map ℕ Inode)
    → Distinct rows
    → HasParents rows
    → IsLeaf id rows
    → remaining id rows ≡ remove id rows
unfolding remaining
remaining_leaf id rows d h leaf =
    cascade_same (length rows) (remove id rows) (remove-Distinct id rows d) λ k i e.
      let old : lookup k rows ≡ some i = ground (arith, lookup-remove id k rows, e) in
      has_parent-remove id rows i (h k i old) (leaf k i old)

-- A deletion leaves a table in which each parent is there, and in it no row of the deleted one's,
-- neither itself nor a child of it.
pub record Deleted (id : ℕ) (rows left : Map ℕ Inode) : Type 0 where
  pub distinct : Distinct left
  pub parents : HasParents left
  pub gone : lookup id left ≡ none
  pub leaf : IsLeaf id left
  pub unchanged : (k : ℕ) (i : Inode) → lookup k left ≡ some i → lookup k rows ≡ some i

parent_is_there :
    (id : ℕ) (rows : Map ℕ Inode) (i : Inode)
    → lookup id rows ≡ none
    → has_parent rows i ≡ true
    → same_parent (some id) i.parent_id ≡ false
unfolding has_parent
parent_is_there id rows i e h = elim (Option-cases i.parent_id) [
  | inl f ↦ ground (arith, f)
  | inr (p, f) ↦ ground (arith, f, e, h, nat_eq.beq_iff id p)
]

-- A deletion in a table with one row per key, with as many rounds of the cascade as there are rows, is
-- complete: the row is gone, no row is left without its parent or below the deleted one, and the
-- rows that are left are as they were.
pub remaining-Deleted :
    (id : ℕ) (rows : Map ℕ Inode) → Distinct rows → Deleted id rows (remaining id rows)
unfolding remaining
remaining-Deleted id rows d =
    let m : Map ℕ Inode = remove id rows in
    let n : ℕ = length rows in
    let dm = remove-Distinct id rows d in
    let parents = cascade-HasParents n m dm (length-remove_le id rows) in
    let gone : lookup id (cascade n m) ≡ none = elim (Option-cases (lookup id (cascade n m))) [
      | inl e ↦ e
      | inr (i, e) ↦
          ground (
            arith,
            cascade_keeps_rows n m id i dm e,
            lookup-remove id id rows,
            nat_eq.beq_iff id id,
          )
    ] in
    record {
      distinct = cascade-Distinct n m dm;
      parents = parents;
      gone = gone;
      leaf = λ k i e. parent_is_there id (cascade n m) i gone (parents k i e);
      unchanged = λ k i e. ground (arith, cascade_keeps_rows n m k i dm e, lookup-remove id k rows);
    }
