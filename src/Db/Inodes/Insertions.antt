-- ===== src/Db/Inodes/Insertions.antt =====
-- That a new row keeps the table well-formed, and what a creation has done
-- (crates/smartfs-db/src/inodes.rs).
use smartfs.Base.{
  ℕ, ◌≡◌, ◌≢◌, Bool, true, false, Option, some, lookup, insert, nat_eq, bytes_eq, ◌==◌, arith, inl,
  inr, Bool-cases, Option-cases, insert-Distinct, lookup-insert, Bytes, subst, sym, ap,
}
use smartfs.Schema.Error.{ok}
use smartfs.Db.Models.{Db, Inode, Env, insert_inode}
use smartfs.Db.Inodes.{
  is_entry, has_parent, find_entry, find_ino, Drawn, new_inode, admits_entry, admits_key,
  inode_create_with_rdev,
}
use smartfs.Db.Inodes.Rows.{find_row, find_row_nothing}
use smartfs.Db.Inodes.Tree.{is_entry_sound, IsTree}

-- A new row whose key, number and name are free, and whose parent is there.
module _ (drawn : Drawn) (row : Inode) (d : Db) (t : IsTree d.inodes) where
  has_parent-insert :
      (i : Inode)
      → has_parent d.inodes i ≡ true
      → has_parent (insert drawn.id row d.inodes) i ≡ true
  unfolding has_parent
  has_parent-insert i h = elim (Option-cases i.parent_id) [
    | inl e ↦ ground (arith, e)
    | inr (p, e) ↦ elim (Option-cases (lookup p d.inodes)) [
      | inl g ↦ ground (arith, e, g, h)
      | inr (u, g) ↦ ground (arith, e, g, lookup-insert drawn.id p row d.inodes)
    ]
  ]

  own_parent :
      admits_entry row.parent_id row.name d ≡ true
      → has_parent (insert drawn.id row d.inodes) row ≡ true
  unfolding admits_entry has_parent
  own_parent a = elim (Option-cases row.parent_id) [
    | inl e ↦ ground (arith, e)
    | inr (p, e) ↦ elim (Option-cases (lookup p d.inodes)) [
      | inl g ↦ ground (arith, e, g, a)
      | inr (u, g) ↦ ground (arith, e, g, lookup-insert drawn.id p row d.inodes)
    ]
  ]

  free_name :
      (p k : ℕ) (name : Bytes) (v : Inode)
      → admits_entry row.parent_id row.name d ≡ true
      → is_entry (some p) name row ≡ true
      → lookup k d.inodes ≡ some v
      → is_entry (some p) name v ≡ false
  unfolding admits_entry find_entry
  free_name p k name v a x e =
      let here = is_entry_sound p name row x in
      let b : admits_entry (some p) name d ≡ true = ground (arith, a, here) in
      elim (Option-cases (find_row (is_entry (some p) name) d.inodes)) [
        | inl none_found ↦ find_row_nothing (is_entry (some p) name) d.inodes k v none_found e
        | inr (r, found) ↦ ground (arith, b, found)
      ]

  free_number :
      (k : ℕ) (v : Inode)
      → admits_key drawn d ≡ true
      → lookup k d.inodes ≡ some v
      → v.ino ≢ drawn.ino
  unfolding admits_key find_ino
  free_number k v b e = elim (Option-cases (find_row (λ i. i.ino == drawn.ino) d.inodes)) [
    | inl none_found ↦
        let other =
          find_row_nothing (λ (i : Inode). i.ino == drawn.ino) d.inodes k v none_found e in
        λ same. ground (arith, other, same, nat_eq.beq_iff v.ino drawn.ino)
    | inr (r, found) ↦ ground (arith, b, found)
  ]

  pub insert-IsTree :
      admits_entry row.parent_id row.name d ≡ true
      → admits_key drawn d ≡ true
      → row.ino ≡ drawn.ino
      → IsTree (insert drawn.id row d.inodes)
  insert-IsTree a b e = record {
    distinct = insert-Distinct drawn.id row d.inodes t.distinct;
    names = λ j k p name v w g h x y. ground (
      arith,
      lookup-insert drawn.id j row d.inodes,
      lookup-insert drawn.id k row d.inodes,
      t.names j k p name v w,
      free_name p k name w a,
      free_name p j name v a,
      nat_eq.beq_iff drawn.id j,
      nat_eq.beq_iff drawn.id k,
      g,
      h,
      x,
      y,
    );
    numbers = λ j k v w g h x. ground (
      arith,
      lookup-insert drawn.id j row d.inodes,
      lookup-insert drawn.id k row d.inodes,
      t.numbers j k v w,
      free_number k w b,
      free_number j v b,
      nat_eq.beq_iff drawn.id j,
      nat_eq.beq_iff drawn.id k,
      g,
      h,
      x,
      e,
    );
    parents = λ k v g. ground (
      arith,
      lookup-insert drawn.id k row d.inodes,
      has_parent-insert v,
      t.parents k v,
      own_parent a,
      g,
    );
  }

-- What a creation that succeeds has found and done.
pub record Created (drawn : Drawn) (row : Inode) (d e : Db) (r : ℕ × Inode) : Type 0 where
  pub entry : admits_entry row.parent_id row.name d ≡ true
  pub key : admits_key drawn d ≡ true
  pub table : e ≡ (record d { inodes = insert drawn.id row d.inodes })
  pub reply : r ≡ (drawn.id, row)

pub inode_create_with_rdev-Created :
    (env : Env) (drawn : Drawn) (parent : Option ℕ) (name : Bytes) (is_dir : Bool)
    (uid gid mode rdev : ℕ) (d e : Db) (r : ℕ × Inode)
    → inode_create_with_rdev env drawn parent name is_dir uid gid mode rdev d ≡ ok (r, e)
    → Created drawn (new_inode env drawn parent name is_dir uid gid mode rdev) d e r
unfolding inode_create_with_rdev
inode_create_with_rdev-Created env drawn parent name is_dir uid gid mode rdev d e r h =
    let row : Inode = new_inode env drawn parent name is_dir uid gid mode rdev in
    elim (Bool-cases (env.sql_fails insert_inode)) [
      | inl x ↦ ground (arith, x, h)
      | inr x ↦ elim (Bool-cases (admits_entry parent name d)) [
        | inr y ↦ ground (arith, x, y, h)
        | inl y ↦ elim (Bool-cases (admits_key drawn d)) [
          | inr z ↦ ground (arith, x, y, z, h)
          | inl z ↦ record {
            entry = y;
            key = z;
            table = ground (arith, x, y, z, h);
            reply = ground (arith, x, y, z, h);
          }
        ]
      ]
    ]

pub Created-IsTree :
    (drawn : Drawn) (row : Inode) (d e : Db) (r : ℕ × Inode)
    → row.ino ≡ drawn.ino
    → Created drawn row d e r
    → IsTree d.inodes
    → IsTree e.inodes
Created-IsTree drawn row d e r f c t =
    subst (λ x. IsTree x) (ap (λ (x : Db). x.inodes) (sym c.table))
      (insert-IsTree drawn row d t c.entry c.key f)
