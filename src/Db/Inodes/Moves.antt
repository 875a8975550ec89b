-- ===== src/Db/Inodes/Moves.antt =====
-- That a rename keeps the table a tree (crates/smartfs-db/src/inodes.rs, `inode_rename`).
use smartfs.Base.{
  ℕ, ◌≡◌, refl, true, Option, none, some, Map, lookup, modify, nat_eq, bytes_eq, ◌==◌,
  if◌then◌else◌, arith, inl, inr, Bool-cases, Option-cases, modify-Distinct, lookup-modify, Bytes,
  ◌||◌, subst,
}
use smartfs.Schema.Error.{Result, ok, err}
use smartfs.Db.Models.{
  Db, Inode, Env, begin, select_inode, delete_inode, update_attrs, CommitResult, committed,
  lost_unapplied, lost_applied,
}
use smartfs.Db.Inodes.{
  is_entry, has_parent, find_entry, delete_row, without_target, place, relocate, move, has_key,
  inode_rename, commit_rename,
}
use smartfs.Db.Inodes.Rows.{find_row, find_row_nothing, find_row_sound}
use smartfs.Db.Inodes.Cascade.{remaining-Deleted}
use smartfs.Db.Inodes.Tree.{IsTree, remaining-IsTree, is_entry_sound}

-- The rows once a deleted target is out of the way.
pub without_target-IsTree :
    (source : ℕ) (target : Option (ℕ × Inode)) (d : Db)
    → IsTree d.inodes
    → IsTree (without_target source target d).inodes
unfolding delete_row
without_target-IsTree source none d t = t
without_target-IsTree source (some (target, i)) d t = elim (Bool-cases (target == source)) [
  | inl e ↦ rw (without_target, e) t
  | inr e ↦ rw (without_target, e) (remaining-IsTree target d.inodes t)
]

-- Whoever has the name of a place that was cleared is the row that is to move there.
cleared :
    (source p k : ℕ) (name : Bytes) (v : Inode) (d : Db)
    → IsTree d.inodes
    → lookup k (without_target source (find_entry (some p) name d) d).inodes ≡ some v
    → is_entry (some p) name v ≡ true
    → k ≡ source
unfolding delete_row find_entry
cleared source p k name v d t h x =
    elim (Option-cases (find_row (is_entry (some p) name) d.inodes)) [
      | inl e ↦ ground (arith, e, h, x, find_row_nothing (is_entry (some p) name) d.inodes k v e)
      | inr ((target, i), e) ↦
          let found = find_row_sound (is_entry (some p) name) d.inodes target i t.distinct e in
          let left = remaining-Deleted target d.inodes t.distinct in
          ground (
            arith,
            e,
            h,
            x,
            found,
            left.gone,
            left.unchanged k v,
            t.names k target p name v i,
            nat_eq.beq_iff target source,
          )
    ]

-- A row moved to a place that no other row has, below a parent that is there.
module _ (env : Env) (source : ℕ) (parent : Option ℕ) (name : Bytes) (rows : Map ℕ Inode) where
  has_parent_placed :
      (i : Inode)
      → has_parent rows i ≡ true
      → has_parent (modify source (place env parent name) rows) i ≡ true
  unfolding has_parent
  has_parent_placed i h = elim (Option-cases i.parent_id) [
    | inl e ↦ ground (arith, e)
    | inr (p, e) ↦ elim (Option-cases (lookup p rows)) [
      | inl g ↦ ground (arith, e, g, h)
      | inr (u, g) ↦ ground (arith, e, g, lookup-modify (place env parent name) source p rows)
    ]
  ]

  new_parent :
      (i : Inode)
      → has_key parent rows ≡ true
      → has_parent (modify source (place env parent name) rows) (place env parent name i) ≡ true
  unfolding has_parent has_key
  new_parent i h = elim (Option-cases parent) [
    | inl e ↦ ground (arith, e)
    | inr (p, e) ↦ elim (Option-cases (lookup p rows)) [
      | inl g ↦ ground (arith, e, g, h)
      | inr (u, g) ↦ ground (arith, e, g, lookup-modify (place env parent name) source p rows)
    ]
  ]

  -- A row after the move is the moved one, or another that is as it was.
  after_move :
      (k : ℕ) (v : Inode)
      → lookup k (modify source (place env parent name) rows) ≡ some v
      → (u : Inode) × (lookup k rows ≡ some u)
        × (v ≡ (if source == k then place env parent name u else u))
  after_move k v e = elim (Option-cases (lookup k rows)) [
    | inl g ↦ ground (arith, lookup-modify (place env parent name) source k rows, g, e)
    | inr (u, g) ↦ (u, g, ground (arith, lookup-modify (place env parent name) source k rows, g, e))
  ]

  abbrev IsFree : Type 0
  IsFree =
      (p k : ℕ) (v : Inode)
      → parent ≡ some p
      → lookup k rows ≡ some v
      → is_entry (some p) name v ≡ true
      → k ≡ source

  placed_names :
      (j k p : ℕ) (n : Bytes) (v u w x : Inode)
      → IsTree rows
      → IsFree
      → lookup j rows ≡ some u
      → v ≡ (if source == j then place env parent name u else u)
      → lookup k rows ≡ some x
      → w ≡ (if source == k then place env parent name x else x)
      → is_entry (some p) n v ≡ true
      → is_entry (some p) n w ≡ true
      → j ≡ k
  placed_names j k p n v u w x t free e f g h a b =
      let c = is_entry_sound p n v a in
      let d = is_entry_sound p n w b in
      ground (
        arith,
        e,
        f,
        g,
        h,
        a,
        b,
        c,
        d,
        t.names j k p n u x,
        free p k x,
        free p j u,
        nat_eq.beq_iff source j,
        nat_eq.beq_iff source k,
      )

  placed_parent :
      (k : ℕ) (v u : Inode)
      → has_parent rows u ≡ true
      → has_key parent rows ≡ true
      → v ≡ (if source == k then place env parent name u else u)
      → has_parent (modify source (place env parent name) rows) v ≡ true
  placed_parent k v u h key e = elim (Bool-cases (source == k)) [
    | inl f ↦ ground (arith, f, e, new_parent u key)
    | inr f ↦ ground (arith, f, e, has_parent_placed u h)
  ]

  place-IsTree :
      IsTree rows
      → has_key parent rows ≡ true
      → IsFree
      → IsTree (modify source (place env parent name) rows)
  place-IsTree t key free = record {
    distinct = modify-Distinct (place env parent name) source rows t.distinct;
    names = λ j k p n v w e g a b.
        let x = after_move j v e in
        let y = after_move k w g in placed_names j k p n v x.0 w y.0 t free x.1 x.2 y.1 y.2 a b;
    numbers = λ j k v w e g a.
        let x = after_move j v e in
        let y = after_move k w g in t.numbers j k x.0 y.0 x.1 y.1 (ground (arith, a, x.2, y.2));
    parents =
        λ k v e. let x = after_move k v e in placed_parent k v x.0 (t.parents k x.0 x.1) key x.2;
  }

pub relocate-IsTree :
    (env : Env) (source : ℕ) (parent : Option ℕ) (name : Bytes) (d e : Db)
    → IsTree d.inodes
    → ((p k : ℕ) (v : Inode)
        → parent ≡ some p
        → lookup k d.inodes ≡ some v
        → is_entry (some p) name v ≡ true
        → k ≡ source)
    → relocate env source parent name d ≡ ok e
    → IsTree e.inodes
unfolding relocate
relocate-IsTree env source parent name d e t free h = elim (Option-cases (lookup source d.inodes)) [
  | inl a ↦ subst (λ x. IsTree x) (ground (arith, a, h)) t
  | inr (i, a) ↦ elim (Bool-cases (has_key parent d.inodes)) [
    | inr b ↦ ground (arith, a, b, h)
    | inl b ↦
        subst (λ x. IsTree x) (ground (arith, a, b, h))
          (place-IsTree env source parent name d.inodes t b free)
  ]
]

pub move-IsTree :
    (env : Env) (source : ℕ) (parent : Option ℕ) (name : Bytes) (d e : Db)
    → IsTree d.inodes
    → move env source parent name d ≡ ok e
    → IsTree e.inodes
unfolding move
move-IsTree env source parent name d e t h =
    elim (Bool-cases (env.sql_fails delete_inode || env.sql_fails update_attrs)) [
      | inr b ↦
          relocate-IsTree env source parent name
            (without_target source (find_entry parent name d) d) e
            (without_target-IsTree source (find_entry parent name d) d t)
            (λ p k v q g x. cleared source p k name v d t (ground (arith, q, g)) x)
            (ground (arith, b, h))
      | inl b ↦ ground (arith, b, h)
    ]

commit_rename-IsTree :
    (r : CommitResult) (d : Db) (x : Result Db)
    → IsTree d.inodes
    → ((e : Db) → x ≡ ok e → IsTree e.inodes)
    → IsTree (commit_rename r d x).0.inodes
commit_rename-IsTree r d (err e) t h = t
commit_rename-IsTree committed d (ok e) t h = h e refl
commit_rename-IsTree lost_unapplied d (ok e) t h = t
commit_rename-IsTree lost_applied d (ok e) t h = h e refl

pub inode_rename-IsTree :
    (env : Env) (old_parent : Option ℕ) (old_name : Bytes) (new_parent : Option ℕ)
    (new_name : Bytes) (d : Db)
    → IsTree d.inodes
    → IsTree (inode_rename env old_parent old_name new_parent new_name d).0.inodes
unfolding inode_rename
inode_rename-IsTree env old_parent old_name new_parent new_name d t =
    elim (Bool-cases (env.sql_fails begin || env.sql_fails select_inode)) [
      | inl e ↦ rw (inode_rename, e) t
      | inr e ↦ elim (Option-cases (find_entry old_parent old_name d)) [
        | inl f ↦ rw (inode_rename, e, f) t
        | inr ((source, i), f) ↦
            rw (inode_rename, e, f)
              (commit_rename-IsTree env.commit_result d (move env source new_parent new_name d) t
                (λ x h. move-IsTree env source new_parent new_name d x t h))
      ]
    ]
