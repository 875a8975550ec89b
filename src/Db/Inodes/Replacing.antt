-- ===== src/Db/Inodes/Replacing.antt =====
-- The rename of an entry onto another (crates/smartfs-db/src/inodes.rs, `inode_rename`).
use smartfs.Base.{
  ℕ, ◌≡◌, ◌≢◌, ◌||◌, none, some, lookup, nat_eq, arith, inl, inr, Bool-cases, Option-cases,
  lookup-modify, Bytes,
}
use smartfs.Schema.Error.{Result, ok, err}
use smartfs.Db.Models.{
  Db, Inode, Env, begin, select_inode, committed, lost_unapplied, lost_applied, CommitResult,
}
use smartfs.Db.Inodes.{
  find_entry, delete_row, without_target, place, relocate, move, inode_rename, commit_rename,
}
use smartfs.Db.Inodes.Cascade.{IsLeaf, remaining-Deleted}
use smartfs.Db.Inodes.Tree.{IsTree}
use smartfs.Db.Inodes.Moves.{move-IsTree}
use smartfs.Db.Inodes.Names.{names_of, bind, names_sound}
use smartfs.Db.Inodes.Renames.{names_of-move}

committed_only :
    (r : CommitResult) (d e : Db) (x : Result Db) → commit_rename r d x ≡ (e, ok tt) → x ≡ ok e
committed_only r d e (err y) h = ground (arith, h)
committed_only committed d e (ok y) h = ground (arith, h)
committed_only lost_unapplied d e (ok y) h = ground (arith, h)
committed_only lost_applied d e (ok y) h = ground (arith, h)

module _ (env : Env) (old_parent : ℕ) (old_name : Bytes) (new_parent : ℕ) (new_name : Bytes)
    (d e : Db) where
  -- What a rename that succeeds has found, and the move that it has made.
  pub rename_sound :
      inode_rename env (some old_parent) old_name (some new_parent) new_name d ≡ (e, ok tt)
      → (source : ℕ) × (names_of d old_parent old_name ≡ some source)
        × (move env source (some new_parent) new_name d ≡ ok e)
  unfolding inode_rename names_of
  rename_sound h = elim (Bool-cases (env.sql_fails begin || env.sql_fails select_inode)) [
    | inl a ↦ ground (arith, a, h)
    | inr a ↦ elim (Option-cases (find_entry (some old_parent) old_name d)) [
      | inl f ↦ ground (arith, a, f, h)
      | inr ((source, i), f) ↦
          let x =
            committed_only env.commit_result d e (move env source (some new_parent) new_name d)
              (ground (arith, a, f, h)) in
          (source, ground (arith, f), x)
    ]
  ]

  -- A rename that succeeds onto a free name, a file or an empty directory, in a well-formed table,
  -- binds the new name to the inode that had the old one, leaves the old name without an inode (if
  -- the two differ), changes no other name, and leaves the table well-formed.
  pub inode_rename_moves_name :
      IsTree d.inodes
      → ((k : ℕ) → names_of d new_parent new_name ≡ some k → IsLeaf k d.inodes)
      → inode_rename env (some old_parent) old_name (some new_parent) new_name d ≡ (e, ok tt)
      → (source : ℕ) × (names_of d old_parent old_name ≡ some source)
        × (names_of e
            ≡ bind new_parent new_name (some source) (bind old_parent old_name none (names_of d)))
        × IsTree e.inodes
  inode_rename_moves_name t leaf h =
      let (source, named, done) = rename_sound h in
      let x = names_sound d t old_parent source old_name named in
      (
        source,
        named,
        names_of-move env source old_parent new_parent old_name new_name x.0 d e t x.1 x.2
            (λ k g ne. leaf k g) done,
        move-IsTree env source (some new_parent) new_name d e t done,
      )

  not_restored :
      (source k : ℕ) (d1 : Db)
      → relocate env source (some new_parent) new_name d1 ≡ ok e
      → lookup k d1.inodes ≡ none
      → lookup k e.inodes ≡ none
  unfolding relocate
  not_restored source k d1 h f =
      ground (arith, h, f, lookup-modify (place env (some new_parent) new_name) source k d1.inodes)

  -- A rename that succeeds onto a directory, other than the inode that is renamed, in a well-formed
  -- table, deletes the directory and each of its entries that is not itself the inode renamed: it
  -- is not refused for a directory that is not empty.
  pub inode_rename_discards_contents :
      (target child : ℕ) (x : Inode)
      → IsTree d.inodes
      → names_of d new_parent new_name ≡ some target
      → names_of d old_parent old_name ≢ some target
      → lookup child d.inodes ≡ some x
      → x.parent_id ≡ some target
      → inode_rename env (some old_parent) old_name (some new_parent) new_name d ≡ (e, ok tt)
      → (lookup target e.inodes ≡ none) × (lookup child e.inodes ≡ none)
  unfolding move delete_row names_of
  inode_rename_discards_contents target child x t named other inside below h =
      let (source, from, done) = rename_sound h in
      let left = remaining-Deleted target d.inodes t.distinct in
      let d1 : Db = without_target source (find_entry (some new_parent) new_name d) d in
      let same : d1 ≡ delete_row target d =
        elim (Option-cases (find_entry (some new_parent) new_name d)) [
          | inl f ↦ ground (arith, f, named)
          | inr ((g, i), f) ↦ ground (arith, f, named, from, other, nat_eq.beq_iff g source)
        ] in
      let child_gone : lookup child d1.inodes ≡ none =
        elim (Option-cases (lookup child d1.inodes)) [
          | inl f ↦ f
          | inr (i, f) ↦ ground (
            arith,
            f,
            same,
            left.unchanged child i,
            left.leaf child i,
            inside,
            below,
            nat_eq.beq_iff target target,
          )
        ] in
      let step : relocate env source (some new_parent) new_name d1 ≡ ok e = ground (arith, done) in
      (
        not_restored source target d1 step (ground (arith, same, left.gone)),
        not_restored source child d1 step child_gone,
      )
