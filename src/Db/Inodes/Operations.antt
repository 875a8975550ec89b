-- ===== src/Db/Inodes/Operations.antt =====
-- The operations on `inode_registry` as data, and histories of them
-- (crates/smartfs-db/src/inodes.rs).
use smartfs.Base.{
  ℕ, ◌≡◌, refl, Bool, true, false, Option, Bytes, List, [], ◌∷◌, inl, inr, subst, sym, Bool-cases,
  Option-cases, nat_eq, lookup, modify,
}
use smartfs.Schema.Error.{Result, ok, err, Result-cases}
use smartfs.Db.Models.{Db, Inode, Env, delete_inode, update_attrs}
use smartfs.Db.Versions.{blob_or_empty_or_virtual}
use smartfs.Db.Inodes.{
  Drawn, new_inode, inode_create_with_rdev, inode_delete, delete_row, inode_rename,
  inode_update_attrs, inode_set_times, inode_set_index_mode, inode_touch_atime_relatime,
  inode_touch_mtime, update_row, set_attrs, set_times, is_stale, in_index_mode, accessed, written,
}
use smartfs.Db.Inodes.Tree.{IsTree, KeepsKeys, modify-IsTree, remaining-IsTree}
use smartfs.Db.Inodes.Insertions.{inode_create_with_rdev-Created, Created-IsTree}
use smartfs.Db.Inodes.Names.{names_of, names_of-modify, names_of_same}
use smartfs.Db.Inodes.Moves.{inode_rename-IsTree}

pub data Operation : Type 0 where
  creates : Drawn → Option ℕ → Bytes → Bool → (uid gid mode rdev : ℕ) → Operation
  deletes : ℕ → Operation
  renames : Option ℕ → Bytes → Option ℕ → Bytes → Operation
  sets_attrs : ℕ → (uid gid mode size : Option ℕ) → Operation
  sets_times : ℕ → (atime mtime : Option ℕ) → Operation
  sets_index_mode touches_atime touches_mtime : ℕ → Operation

-- The tables after a call that answered with them, or with an error.
abbrev pub state_of {ℓ} : {A : Type ℓ} → Db → Result (A × Db) → Db
state_of d (err e) = d
state_of d (ok (a, d')) = d'

abbrev pub state_or : Db → Result Db → Db
state_or d (err e) = d
state_or d (ok d') = d'

-- The tables after an operation, which may fail.
unfoldable pub step : Env → Operation → Db → Db
step env (creates drawn parent name is_dir uid gid mode rdev) d =
    state_of d (inode_create_with_rdev env drawn parent name is_dir uid gid mode rdev d)
step env (deletes id) d = state_or d (inode_delete env id d)
step env (renames op on np nn) d = (inode_rename env op on np nn d).0
step env (sets_attrs id uid gid mode size) d =
    state_of d (inode_update_attrs env id uid gid mode size d)
step env (sets_times id atime mtime) d = state_of d (inode_set_times env id atime mtime d)
step env (sets_index_mode id) d = state_or d (inode_set_index_mode env id d)
step env (touches_atime id) d = state_of d (inode_touch_atime_relatime env id d)
step env (touches_mtime id) d = state_or d (inode_touch_mtime env id d)

-- A history, its oldest operation first; each meets an environment of its own.
unfoldable pub run : List (Env × Operation) → Db → Db
run [] d = d
run ((env, o) ∷ ops) d = run ops (step env o d)

-- An update: of one row that keeps its key columns, or of nothing.
pub data IsUpdate (d e : Db) : Type 0 where
  leaves : e.inodes ≡ d.inodes → IsUpdate d e
  updates :
      (id : ℕ) (f : Inode → Inode) → KeepsKeys f → e.inodes ≡ modify id f d.inodes → IsUpdate d e

update_row-IsUpdate :
    (env : Env) (id : ℕ) (f : Inode → Inode) (d : Db)
    → KeepsKeys f
    → IsUpdate d (state_of d (update_row env id f d))
update_row-IsUpdate env id f d keep = elim (Bool-cases (env.sql_fails update_attrs)) [
  | inl e ↦ leaves (rw e refl)
  | inr e ↦ elim (Option-cases (lookup id d.inodes)) [
    | inl g ↦ leaves (rw (e, g) refl)
    | inr (i, g) ↦ elim (Bool-cases (blob_or_empty_or_virtual (f i))) [
      | inl h ↦ updates id f keep (rw (e, g, h) refl)
      | inr h ↦ leaves (rw (e, g, h) refl)
    ]
  ]
]

pub IsUpdate-IsTree : (d e : Db) → IsUpdate d e → IsTree d.inodes → IsTree e.inodes
IsUpdate-IsTree d e (leaves h) t = subst IsTree (sym h) t
IsUpdate-IsTree d e (updates id f keep h) t =
    subst IsTree (sym h) (modify-IsTree f keep id d.inodes t)

pub names_of-IsUpdate : (d e : Db) → IsUpdate d e → names_of e ≡ names_of d
names_of-IsUpdate d e (leaves h) = names_of_same d e h
names_of-IsUpdate d e (updates id f keep h) = names_of-modify f keep id d e h

abbrev by_columns :
    {f : Inode → Inode}
    → ((i : Inode) → (f i).ino ≡ i.ino)
    → ((i : Inode) → (f i).parent_id ≡ i.parent_id)
    → ((i : Inode) → (f i).name ≡ i.name)
    → KeepsKeys f
by_columns a b c = record { ino = a; parent = b; name = c }

-- Whether an operation is an update of columns that are no part of a key.
abbrev pub is_update : Operation → Bool
is_update (creates drawn parent name is_dir uid gid mode rdev) = false
is_update (deletes id) = false
is_update (renames op on np nn) = false
is_update _ = true

pub step-IsUpdate :
    (env : Env) (o : Operation) (d : Db) → is_update o ≡ true → IsUpdate d (step env o d)
unfolding step inode_set_index_mode inode_touch_atime_relatime inode_touch_mtime inode_update_attrs
    inode_set_times
step-IsUpdate env (creates drawn parent name is_dir uid gid mode rdev) d h = cc
step-IsUpdate env (deletes id) d h = cc
step-IsUpdate env (renames op on np nn) d h = cc
step-IsUpdate env (sets_attrs id uid gid mode size) d h =
    update_row-IsUpdate env id (set_attrs env uid gid mode size) d
      (by_columns (λ i. refl) (λ i. refl) (λ i. refl))
step-IsUpdate env (sets_times id atime mtime) d h =
    update_row-IsUpdate env id (set_times env atime mtime) d
      (by_columns (λ i. refl) (λ i. refl) (λ i. refl))
step-IsUpdate env (sets_index_mode id) d h = elim (Bool-cases (env.sql_fails update_attrs)) [
  | inl e ↦ leaves (rw e refl)
  | inr e ↦
      updates id (in_index_mode env) (by_columns (λ i. refl) (λ i. refl) (λ i. refl)) (rw e refl)
]
step-IsUpdate env (touches_atime id) d h = elim (Bool-cases (env.sql_fails update_attrs)) [
  | inl e ↦ leaves (rw e refl)
  | inr e ↦ elim (Option-cases (lookup id d.inodes)) [
    | inl g ↦ leaves (rw (e, g) refl)
    | inr (i, g) ↦ elim (Bool-cases (is_stale env.now i)) [
      | inl s ↦
          updates id (accessed env) (by_columns (λ i. refl) (λ i. refl) (λ i. refl))
            (rw (e, g, s) refl)
      | inr s ↦ leaves (rw (e, g, s) refl)
    ]
  ]
]
step-IsUpdate env (touches_mtime id) d h = elim (Bool-cases (env.sql_fails update_attrs)) [
  | inl e ↦ leaves (rw e refl)
  | inr e ↦ updates id (written env) (by_columns (λ i. refl) (λ i. refl) (λ i. refl)) (rw e refl)
]

create-IsTree :
    (env : Env) (drawn : Drawn) (parent : Option ℕ) (name : Bytes) (is_dir : Bool)
    (uid gid mode rdev : ℕ) (d : Db)
    → IsTree d.inodes
    → IsTree
        (state_of d
          (inode_create_with_rdev env drawn parent name is_dir uid gid mode rdev d)).inodes
create-IsTree env drawn parent name is_dir uid gid mode rdev d t =
    elim (Result-cases (inode_create_with_rdev env drawn parent name is_dir uid gid mode rdev d)) [
      | inl (x, e) ↦ rw e t
      | inr ((r, d'), e) ↦ rw e (
          Created-IsTree drawn (new_inode env drawn parent name is_dir uid gid mode rdev) d d' r
            refl
            (inode_create_with_rdev-Created env drawn parent name is_dir uid gid mode rdev d d' r e)
            t)
    ]

delete-IsTree :
    (env : Env) (id : ℕ) (d : Db)
    → IsTree d.inodes
    → IsTree (state_or d (inode_delete env id d)).inodes
unfolding inode_delete delete_row
delete-IsTree env id d t = elim (Bool-cases (env.sql_fails delete_inode)) [
  | inl e ↦ rw (inode_delete, e) t
  | inr e ↦ rw (inode_delete, e) (remaining-IsTree id d.inodes t)
]

other_step-IsTree :
    (env : Env) (o : Operation) (d : Db)
    → is_update o ≡ false
    → IsTree d.inodes
    → IsTree (step env o d).inodes
unfolding step
other_step-IsTree env (creates drawn parent name is_dir uid gid mode rdev) d e t =
    create-IsTree env drawn parent name is_dir uid gid mode rdev d t
other_step-IsTree env (deletes id) d e t = delete-IsTree env id d t
other_step-IsTree env (renames op on np nn) d e t = inode_rename-IsTree env op on np nn d t
other_step-IsTree env (sets_attrs id uid gid mode size) d e t = cc
other_step-IsTree env (sets_times id atime mtime) d e t = cc
other_step-IsTree env (sets_index_mode id) d e t = cc
other_step-IsTree env (touches_atime id) d e t = cc
other_step-IsTree env (touches_mtime id) d e t = cc

-- Each operation keeps the table well-formed, whether it fails or not.
pub step-IsTree :
    (env : Env) (o : Operation) (d : Db) → IsTree d.inodes → IsTree (step env o d).inodes
step-IsTree env o d t = elim (Bool-cases (is_update o)) [
  | inl e ↦ IsUpdate-IsTree d (step env o d) (step-IsUpdate env o d e) t
  | inr e ↦ other_step-IsTree env o d e t
]

-- Every history keeps the table well-formed.
pub run-IsTree :
    (ops : List (Env × Operation)) (d : Db) → IsTree d.inodes → IsTree (run ops d).inodes
unfolding run
run-IsTree [] d t = t
run-IsTree ((env, o) ∷ ops) d t = run-IsTree ops (step env o d) (step-IsTree env o d t)
