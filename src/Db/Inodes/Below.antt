-- ===== src/Db/Inodes/Below.antt =====
-- What a deletion takes with it (crates/smartfs-db/src/inodes.rs, `inode_delete` and `inode_rename`,
-- with the foreign key of migrations/001_core_schema.sql).
use smartfs.Base.{
  ℕ, zero, suc, ◌≡◌, sym, true, false, none, some, Map, lookup, remove, retain, Distinct, length,
  nat_eq, arith, ◌⊎◌, inl, inr, Bool-cases, Option-cases, remove-Distinct, retain-Distinct,
  lookup-retain, lookup-remove, subst, ◌==◌,
}
use smartfs.Schema.Error.{ok}
use smartfs.Db.Models.{Db, Env, Inode}
use smartfs.Db.Inodes.{has_parent, cascade, remaining, inode_delete, delete_row}
use smartfs.Db.Inodes.Tree.{IsTree}
use smartfs.Db.Inodes.Cascade.{HasParents, Deleted, remaining-Deleted}

-- The row `id`, the rows in it if it is a directory, the rows in these, and so on.
pub data Below (id : ℕ) (rows : Map ℕ Inode) : ℕ → Type 0 where
  itself : Below id rows id
  child :
      (p k : ℕ) (i : Inode)
      → Below id rows p
      → lookup k rows ≡ some i
      → i.parent_id ≡ some p
      → Below id rows k

-- A deletion takes the rows that are below the deleted one, all of them and no others.
pub record DeletesBelow (id : ℕ) (rows left : Map ℕ Inode) : Type 0 where
  pub gone : (k : ℕ) → Below id rows k → lookup k left ≡ none
  pub kept :
      (k : ℕ) (i : Inode) → lookup k rows ≡ some i → ¬ Below id rows k → lookup k left ≡ some i
  pub old : (k : ℕ) (i : Inode) → lookup k left ≡ some i → lookup k rows ≡ some i

absent :
    (id : ℕ) (rows left : Map ℕ Inode) (p k : ℕ) (i j : Inode)
    → Deleted id rows left
    → lookup p left ≡ none
    → lookup k rows ≡ some i
    → i.parent_id ≡ some p
    → lookup k left ≡ some j
    → ⊥
unfolding has_parent
absent id rows left p k i j d away here of_p e =
    ground (arith, d.parents k j e, d.unchanged k j e, away, here, of_p)

Below-gone :
    (id : ℕ) (rows left : Map ℕ Inode) (k : ℕ)
    → Deleted id rows left
    → Below id rows k
    → lookup k left ≡ none
Below-gone id rows left _ d itself = d.gone
Below-gone id rows left _ d (child p k i below here of_p) = elim (Option-cases (lookup k left)) [
  | inl e ↦ e
  | inr (j, e) ↦
      elim (absent id rows left p k i j d (Below-gone id rows left p d below) here of_p e) [ ]
]

-- Of the rows, those that a table still has, and for the others that they are below.
abbrev KeepsOrBelow : ℕ → Map ℕ Inode → Map ℕ Inode → Type 0
KeepsOrBelow id rows left =
    (k : ℕ) (i : Inode) → lookup k rows ≡ some i → (lookup k left ≡ some i) ⊎ Below id rows k

-- A row that has no parent in a table that has all parents has one that is not there.
no_orphan : (rows m : Map ℕ Inode) (i : Inode) → i.parent_id ≡ none → has_parent m i ≡ false → ⊥
unfolding has_parent
no_orphan rows m i f e = ground (arith, f, e)

parent_row :
    (rows : Map ℕ Inode) (i : Inode) (p : ℕ)
    → has_parent rows i ≡ true
    → i.parent_id ≡ some p
    → (j : Inode) × (lookup p rows ≡ some j)
unfolding has_parent
parent_row rows i p h f = elim (Option-cases (lookup p rows)) [
  | inl e ↦ elim (no e) [ ]
  | inr found ↦ found
]
  where
    no : lookup p rows ≡ none → ⊥
    no e = ground (arith, h, f, e)

parent_away :
    (m : Map ℕ Inode) (i j : Inode) (p : ℕ)
    → has_parent m i ≡ false
    → i.parent_id ≡ some p
    → lookup p m ≡ some j
    → ⊥
unfolding has_parent
parent_away m i j p e f there = ground (arith, e, f, there)

module _ (id : ℕ) (rows : Map ℕ Inode) (whole : HasParents rows) where
  -- A row without its parent is below, since its parent was.
  orphan-Below :
      (m : Map ℕ Inode) (k : ℕ) (i : Inode)
      → KeepsOrBelow id rows m
      → lookup k rows ≡ some i
      → has_parent m i ≡ false
      → Below id rows k
  orphan-Below m k i h here e = elim (Option-cases i.parent_id) [
    | inl f ↦ elim (no_orphan rows m i f e) [ ]
    | inr (p, f) ↦
        let (j, there) = parent_row rows i p (whole k i here) f in
        elim (h p j there) [
          | inl still ↦ elim (parent_away m i j p e f still) [ ]
          | inr below ↦ child p k i below here f
        ]
  ]

  round-KeepsOrBelow :
      (m : Map ℕ Inode)
      → Distinct m
      → KeepsOrBelow id rows m
      → KeepsOrBelow id rows (retain (has_parent m) m)
  round-KeepsOrBelow m d h k i here = elim (h k i here) [
    | inr below ↦ inr below
    | inl still ↦ elim (Bool-cases (has_parent m i)) [
      | inl e ↦ inl (ground (arith, lookup-retain (has_parent m) k m d, still, e))
      | inr e ↦ inr (orphan-Below m k i h here e)
    ]
  ]

  cascade-KeepsOrBelow :
      (n : ℕ) (m : Map ℕ Inode)
      → Distinct m
      → KeepsOrBelow id rows m
      → KeepsOrBelow id rows (cascade n m)
  unfolding cascade
  cascade-KeepsOrBelow zero m d h = h
  cascade-KeepsOrBelow (suc n) m d h =
      cascade-KeepsOrBelow n (retain (has_parent m) m) (retain-Distinct (has_parent m) m d)
        (round-KeepsOrBelow m d h)

  removed-KeepsOrBelow : KeepsOrBelow id rows (remove id rows)
  removed-KeepsOrBelow k i here = elim (Bool-cases (k == id)) [
    | inl e ↦ inr (subst (λ j. Below id rows j) (sym ((nat_eq.beq_iff k id).0 e)) itself)
    | inr e ↦
        inl (
          ground
            (arith, e, here, lookup-remove id k rows, nat_eq.beq_iff id k, nat_eq.beq_iff k id))
  ]

  remaining-KeepsOrBelow : Distinct rows → KeepsOrBelow id rows (remaining id rows)
  unfolding remaining
  remaining-KeepsOrBelow d =
      cascade-KeepsOrBelow (length rows) (remove id rows) (remove-Distinct id rows d)
        removed-KeepsOrBelow

  keep :
      (k : ℕ) (i : Inode)
      → (lookup k (remaining id rows) ≡ some i) ⊎ Below id rows k
      → ¬ Below id rows k
      → lookup k (remaining id rows) ≡ some i
  keep k i (inl e) above = e
  keep k i (inr below) above = elim (above below) [ ]

-- In a table with one row per key, in which each parent is there, the cascade takes exactly what is below the row.
pub remaining-DeletesBelow :
    (id : ℕ) (rows : Map ℕ Inode)
    → Distinct rows
    → HasParents rows
    → DeletesBelow id rows (remaining id rows)
remaining-DeletesBelow id rows d whole =
    let deleted = remaining-Deleted id rows d in
    record {
      gone = λ k below. Below-gone id rows (remaining id rows) k deleted below;
      kept = λ k i here above.
          keep id rows whole k i (remaining-KeepsOrBelow id rows whole d k i here) above;
      old = deleted.unchanged;
    }

deleted_inodes :
    (env : Env) (id : ℕ) (d q : Db)
    → inode_delete env id d ≡ ok q
    → q.inodes ≡ remaining id d.inodes
unfolding inode_delete delete_row
deleted_inodes env id d q done = ground (arith, done)

-- A deletion that succeeds, in a well-formed table, takes exactly the deleted row, the rows that it is
-- the parent of, those that these are the parents of, and so on; every other row stays as it was, and
-- no row is new.
pub inode_delete-DeletesBelow :
    (env : Env) (id : ℕ) (d q : Db)
    → IsTree d.inodes
    → inode_delete env id d ≡ ok q
    → DeletesBelow id d.inodes q.inodes
inode_delete-DeletesBelow env id d q t done =
    subst (DeletesBelow id d.inodes) (sym (deleted_inodes env id d q done))
      (remaining-DeletesBelow id d.inodes t.distinct t.parents)
