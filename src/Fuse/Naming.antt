-- ===== src/Fuse/Naming.antt =====
-- What the callbacks that make and rename entries do to the names (crates/smartfs-fuse/src/fs.rs,
-- `mkdir`, `mknod` and `rename`).
use smartfs.Base.{
  ℕ, ◌+◌, ◌*◌, ◌%◌, ◌^◌, ◌<◌, ◌≡◌, ◌≢◌, refl, Bool, false, ◌||◌, none, some, Bytes, ltb, length,
  nat_eq, arith, inl, inr, Bool-cases, Option-cases, ◌⊎◌, sym, ap, ◌∙◌, subst,
}
use smartfs.Schema.Error.{SmartFsError, Result, ok, err, Result-cases}
use smartfs.Db.Models.{
  Db, Inode, Env, begin, select_inode, CommitResult, committed, lost_applied, lost_unapplied,
}
use smartfs.Db.Inodes.{
  Drawn, new_inode, inode_create_with_rdev, inode_rename, find_entry, move, commit_rename,
}
use smartfs.Db.Inodes.Tree.{IsTree}
use smartfs.Db.Inodes.Insertions.{Created, Created-IsTree, inode_create_with_rdev-Created}
use smartfs.Db.Inodes.Cascade.{IsLeaf}
use smartfs.Db.Inodes.Names.{names_of, bind, names_of-Created}
use smartfs.Db.Inodes.Replacing.{inode_rename_moves_name}
use smartfs.Attributes.{pos, FileAttr, FileType, type_bits, inode_to_file_attr}
use smartfs.Attributes.Modes.{mode_bits, inode_to_file_attr-mode_bits}
use smartfs.Fuse.{
  Mount, Reply, reply, error, answer, Codec, Checker, db_of, find_by_ino, check_name, record_of,
  signed_of, remember,
}
use smartfs.Fuse.Creates.{Caller, mknod, insert_below, created, node_type, node_rdev, permissions}
use smartfs.Fuse.Removes.{rename, check_renamed, both_parents}

signed_small : (n : ℕ) → n < 2 ^ 31 → signed_of n ≡ pos n
unfolding signed_of
signed_small n h = ground arith

mode_bits_small : (t : FileType) (perm : ℕ) → perm < 4096 → mode_bits t * 4096 + perm < 2 ^ 31
unfolding mode_bits
mode_bits_small t perm h = ground arith

-- The attributes of a row whose mode is made of a type and permission bits.
row_attr :
    (t : FileType) (perm : ℕ) (i : Inode)
    → perm < 4096
    → i.mode ≡ mode_bits t * 4096 + perm
    → let a = inode_to_file_attr (record_of i) in (a.kind ≡ t) × (a.perm ≡ perm)
unfolding record_of
row_attr t perm i small e =
    inode_to_file_attr-mode_bits t perm (record_of i) small
      (ap signed_of e ∙ signed_small (mode_bits t * 4096 + perm) (mode_bits_small t perm small))

module _ (env : Env) (drawn : Drawn) (who : Caller) (parent p : ℕ) (x : Inode) (name : Bytes)
    (mode rdev : ℕ) (m q : Mount) (a : FileAttr) (bits : ℕ)
    (found : find_by_ino env parent m ≡ ok (p, x)) (typed : node_type (type_bits mode) ≡ some bits)
    (done : mknod env drawn who parent (some name) mode rdev m ≡ (q, reply a)) where
  abbrev inserted : Result ((ℕ × Inode) × Db)
  inserted =
      inode_create_with_rdev env drawn (some p) name false who.uid who.gid
        (bits * 4096 + permissions mode) (node_rdev bits rdev) (db_of m)

  short_name : check_name (some name) ≡ reply name
  unfolding check_name mknod
  short_name = elim (Bool-cases (ltb 255 (length name))) [
    | inl e ↦ ground (arith, e, done)
    | inr e ↦ ground (arith, e)
  ]

  not_refused : (y : SmartFsError) → inserted ≡ err y → ⊥
  unfolding mknod insert_below created answer
  not_refused y e = ground (arith, found, typed, done, short_name, e)

  answered :
      (r : ℕ × Inode) (d : Db)
      → inserted ≡ ok (r, d)
      → (db_of q ≡ d) × (a ≡ inode_to_file_attr (record_of r.1))
  unfolding mknod insert_below created remember
  answered r d e = (
    ground (arith, found, typed, done, short_name, e),
    ground (arith, found, typed, done, short_name, e),
  )

  abbrev node_row : Inode
  node_row =
      new_inode env drawn (some p) name false who.uid who.gid (bits * 4096 + permissions mode)
        (node_rdev bits rdev)

  -- What `mknod` has done when it answers.
  mknod-Created :
      (r : ℕ × Inode) × Created drawn node_row (db_of m) (db_of q) r
      × (a ≡ inode_to_file_attr (record_of r.1))
  mknod-Created = elim (Result-cases inserted) [
    | inl (y, e) ↦ elim (not_refused y e) [ ]
    | inr ((r, d), e) ↦
        let y = answered r d e in
        (
          r,
          subst (λ z. Created drawn node_row (db_of m) z r) (sym y.0)
              (inode_create_with_rdev-Created env drawn (some p) name false who.uid who.gid
                (bits * 4096 + permissions mode) (node_rdev bits rdev) (db_of m) d r e),
          y.1,
        )
  ]

module _ (env : Env) (drawn : Drawn) (who : Caller) (parent p : ℕ) (x : Inode) (name : Bytes)
    (mode rdev : ℕ) (m q : Mount) (a : FileAttr) (t : FileType) where
  -- A `mknod` that is acknowledged, for a type other than a directory or a link (none given is a
  -- regular file), reports the type and the permissions that were asked for; the name, which was
  -- free, is bound to the new inode, no other name changes, and the table stays well-formed.
  pub mknod_binds :
      find_by_ino env parent m ≡ ok (p, x)
      → node_type (type_bits mode) ≡ some (mode_bits t)
      → mknod env drawn who parent (some name) mode rdev m ≡ (q, reply a)
      → IsTree (db_of m).inodes
      → (a.kind ≡ t)
        × (a.perm ≡ mode % 4096)
        × (names_of (db_of m) p name ≡ none)
        × (names_of (db_of q) ≡ bind p name (some drawn.id) (names_of (db_of m)))
        × IsTree (db_of q).inodes
  mknod_binds found typed done tree =
      let (r, c, e) =
        mknod-Created env drawn who parent p x name mode rdev m q a (mode_bits t) found typed
          done in
      let row : Inode =
        node_row env drawn who parent p x name mode rdev m q a (mode_bits t) found typed done in
      let attr = row_attr t (mode % 4096) row (omega arith) refl in
      let names = names_of-Created drawn row (db_of m) (db_of q) r p refl c in
      (
        ground (arith, e, c.reply, attr),
        ground (arith, e, c.reply, attr),
        names.0,
        names.1,
        Created-IsTree drawn row (db_of m) (db_of q) r refl c tree,
      )

module _ (codec : Codec) (checker : Checker) (env : Env) (parent new_parent p np : ℕ) (x y : Inode)
    (name new_name : Bytes) (m q : Mount) (from : find_by_ino env parent m ≡ ok (p, x))
    (to : find_by_ino env new_parent m ≡ ok (np, y)) where
  abbrev renaming : Db × Result (Unit {0})
  renaming = inode_rename env (some p) name (some np) new_name (db_of m)

  abbrev long : Bool
  long = ltb 255 (length name) || ltb 255 (length new_name)

  rename_answered :
      rename codec checker env parent (some name) new_parent (some new_name) m ≡ (q, reply tt)
      → renaming ≡ (db_of q, ok tt)
  unfolding rename both_parents remember answer
  rename_answered done = elim (Bool-cases long) [
    | inl e ↦ ground (arith, done, e)
    | inr e ↦ elim (Result-cases (check_renamed codec checker env p name new_name m)) [
      | inl (z, f) ↦ ground (arith, from, to, done, e, f)
      | inr (u, f) ↦ elim (Result-cases renaming.1) [
        | inl (z, g) ↦ ground (arith, from, to, done, e, f, g)
        | inr (v, g) ↦ ground (arith, from, to, done, e, f, g)
      ]
    ]
  ]

  unchanged_by_commit :
      (z : SmartFsError) (r : CommitResult) (d : Db) (w : Result Db)
      → r ≢ lost_applied
      → (commit_rename r d w).1 ≡ err z
      → (commit_rename r d w).0 ≡ d
  unchanged_by_commit z r d (err e) h f = refl
  unchanged_by_commit z committed d (ok e) h f = ground (arith, f)
  unchanged_by_commit z lost_unapplied d (ok e) h f = refl
  unchanged_by_commit z lost_applied d (ok e) h f = elim (h refl) [ ]

  unchanged :
      (z : SmartFsError)
      → env.commit_result ≢ lost_applied
      → renaming.1 ≡ err z
      → renaming.0 ≡ db_of m
  unfolding inode_rename
  unchanged z h f = elim (Bool-cases (env.sql_fails begin || env.sql_fails select_inode)) [
    | inl e ↦ ground (arith, e)
    | inr e ↦ elim (Option-cases (find_entry (some p) name (db_of m))) [
      | inl g ↦ ground (arith, e, g)
      | inr ((source, i), g) ↦
          let w =
            unchanged_by_commit z env.commit_result (db_of m)
              (move env source (some np) new_name (db_of m)) h (ground (arith, e, g, f)) in
          ground (arith, e, g, w)
    ]
  ]

  rename_refused :
      (k : ℕ)
      → env.commit_result ≢ lost_applied
      → rename codec checker env parent (some name) new_parent (some new_name) m ≡ (q, error k)
      → db_of q ≡ db_of m
  unfolding rename both_parents remember answer
  rename_refused k h done = elim (Bool-cases long) [
    | inl e ↦ ground (arith, done, e)
    | inr e ↦ elim (Result-cases (check_renamed codec checker env p name new_name m)) [
      | inl (z, f) ↦ ground (arith, from, to, done, e, f)
      | inr (u, f) ↦ elim (Result-cases renaming.1) [
        | inl (z, g) ↦ ground (arith, from, to, done, e, f, g, unchanged z h g)
        | inr (v, g) ↦ ground (arith, from, to, done, e, f, g)
      ]
    ]
  ]

  abbrev pub Renamed : Type 0
  Renamed =
      (source : ℕ) × (names_of (db_of m) p name ≡ some source)
      × (names_of (db_of q)
          ≡ bind np new_name (some source) (bind p name none (names_of (db_of m))))
      × IsTree (db_of q).inodes

  -- A rename between two directories that it finds, in a well-formed table, onto a new name that is
  -- free or that of an inode that is nobody's parent, does all or nothing, unless the connection is
  -- lost once the transaction is applied. If it is acknowledged, then the new name is bound to the inode
  -- that had the old one, the old name to nothing (if the two differ), no other name changes, and the
  -- table stays well-formed. If it is refused, the tables are as they were.
  pub rename_all_or_nothing :
      IsTree (db_of m).inodes
      → ((k : ℕ) → names_of (db_of m) np new_name ≡ some k → IsLeaf k (db_of m).inodes)
      → env.commit_result ≢ lost_applied
      → (r : Reply (Unit {0}))
      → rename codec checker env parent (some name) new_parent (some new_name) m ≡ (q, r)
      → Renamed ⊎ ((k : ℕ) × (r ≡ error k) × (db_of q ≡ db_of m))
  rename_all_or_nothing t leaf h (error k) done = inr (k, refl, rename_refused k h done)
  rename_all_or_nothing t leaf h (reply tt) done = inl (
      inode_rename_moves_name env p name np new_name (db_of m) (db_of q) t leaf
        (rename_answered done))
