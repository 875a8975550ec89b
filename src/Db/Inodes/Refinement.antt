-- ===== src/Db/Inodes/Refinement.antt =====
-- The registry of inodes as an implementation of a map from names to inodes, under the calls that the
-- filesystem makes of it (crates/smartfs-db/src/inodes.rs).
use smartfs.Base.{
  ℕ, ◌≡◌, refl, Bool, true, false, ◌||◌, none, some, Bytes, List, [], ◌∷◌, inl, inr, subst, sym,
  Bool-cases, Option-cases, nat_eq,
}
use smartfs.Schema.Error.{Result, ok, err, Result-cases}
use smartfs.Db.Models.{
  Db, Inode, Env, delete_inode, begin, select_inode, CommitResult, committed, lost_applied,
  lost_unapplied,
}
use smartfs.Db.Inodes.{
  Drawn, new_inode, inode_create_with_rdev, inode_delete, inode_rename, move, commit_rename,
  inode_update_attrs, inode_set_times, inode_set_index_mode, inode_touch_atime_relatime,
  inode_touch_mtime, find_entry,
}
use smartfs.Db.Inodes.Cascade.{IsLeaf}
use smartfs.Db.Inodes.Tree.{IsTree}
use smartfs.Db.Inodes.Insertions.{inode_create_with_rdev-Created}
use smartfs.Db.Inodes.Names.{
  Names, names_of, bind, unbind, names_of-Created, names_of-delete_row, names_sound,
}
use smartfs.Db.Inodes.Renames.{names_of-move}
use smartfs.Db.Inodes.Operations.{
  Operation, creates, deletes, renames, sets_attrs, sets_times, sets_index_mode, touches_atime,
  touches_mtime, step, run, is_update, step-IsUpdate, names_of-IsUpdate, step-IsTree,
}

abbrev is_ok {ℓ} : {A : Type ℓ} → Result A → Bool
is_ok (ok a) = true
is_ok (err e) = false

-- Whether a call is acknowledged.
abbrev pub acknowledged : Env → Operation → Db → Bool
acknowledged env (creates drawn parent name is_dir uid gid mode rdev) d =
    is_ok (inode_create_with_rdev env drawn parent name is_dir uid gid mode rdev d)
acknowledged env (deletes id) d = is_ok (inode_delete env id d)
acknowledged env (renames op on np nn) d = is_ok (inode_rename env op on np nn d).1
acknowledged env (sets_attrs id uid gid mode size) d =
    is_ok (inode_update_attrs env id uid gid mode size d)
acknowledged env (sets_times id atime mtime) d = is_ok (inode_set_times env id atime mtime d)
acknowledged env (sets_index_mode id) d = is_ok (inode_set_index_mode env id d)
acknowledged env (touches_atime id) d = is_ok (inode_touch_atime_relatime env id d)
acknowledged env (touches_mtime id) d = is_ok (inode_touch_mtime env id d)

-- The answers to the calls of a history.
abbrev pub answers : List (Env × Operation) → Db → List Bool
answers [] d = []
answers ((env, o) ∷ ops) d = acknowledged env o d ∷ answers ops (step env o d)

-- The specification of one call and its answer: what is acknowledged is done to the map, and what is
-- refused is not, but for a rename whose COMMIT was applied before the connection was lost.
pub data NamesStep (env : Env) : Operation → Bool → Names → Names → Type 0 where
  refused : {f : Names} (o : Operation) → NamesStep env o false f f
  binds :
      {f : Names} (drawn : Drawn) (parent : ℕ) (name : Bytes) (is_dir : Bool)
      (uid gid mode rdev : ℕ)
      → f parent name ≡ none
      → NamesStep env
          (creates drawn (some parent) name is_dir uid gid mode rdev)
          true
          f
          (bind parent name (some drawn.id) f)
  unbinds : {f : Names} (k : ℕ) → NamesStep env (deletes k) true f (unbind k f)
  moves :
      {f : Names} (old_parent new_parent k : ℕ) (old_name new_name : Bytes)
      → f old_parent old_name ≡ some k
      → NamesStep env
          (renames (some old_parent) old_name (some new_parent) new_name)
          true
          f
          (bind new_parent new_name (some k) (bind old_parent old_name none f))
  moves_unseen :
      {f : Names} (old_parent new_parent k : ℕ) (old_name new_name : Bytes)
      → env.commit_result ≡ lost_applied
      → f old_parent old_name ≡ some k
      → NamesStep env
          (renames (some old_parent) old_name (some new_parent) new_name)
          false
          f
          (bind new_parent new_name (some k) (bind old_parent old_name none f))
  stays : {f : Names} (o : Operation) → is_update o ≡ true → NamesStep env o true f f

-- A run of the specification: a step for each call of a history, with its answer.
pub data NamesRun : List (Env × Operation) → List Bool → Names → Names → Type 0 where
  done : {f : Names} → NamesRun [] [] f f
  next :
      {f g h : Names} (env : Env) (o : Operation) (ops : List (Env × Operation)) (b : Bool)
      (bs : List Bool)
      → NamesStep env o b f g
      → NamesRun ops bs g h
      → NamesRun ((env, o) ∷ ops) (b ∷ bs) f h

-- What the callers see to: a file has a parent, and a row that is deleted or replaced is nobody's
-- parent.
abbrev pub IsPolite : Operation → Db → Type 0
IsPolite (creates drawn (some parent) name is_dir uid gid mode rdev) d = Unit {0}
IsPolite (creates drawn none name is_dir uid gid mode rdev) d = ⊥
IsPolite (deletes id) d = IsLeaf id d.inodes
IsPolite (renames (some op) on (some np) nn) d =
    (k : ℕ) → names_of d np nn ≡ some k → IsLeaf k d.inodes
IsPolite (renames op on np nn) d = ⊥
IsPolite _ d = Unit {0}

abbrev pub ArePolite : List (Env × Operation) → Db → Type 0
ArePolite [] d = Unit {0}
ArePolite ((env, o) ∷ ops) d = IsPolite o d × ArePolite ops (step env o d)

same_step :
    (env : Env) (o : Operation) (b : Bool) (f g : Names)
    → is_update o ≡ true
    → g ≡ f
    → NamesStep env o b f g
same_step env o true f g u e = subst (NamesStep env o true f) (sym e) (stays o u)
same_step env o false f g u e = subst (NamesStep env o false f) (sym e) (refused o)

create_refines :
    (env : Env) (drawn : Drawn) (parent : ℕ) (name : Bytes) (is_dir : Bool) (uid gid mode rdev : ℕ)
    (d : Db)
    → let o = creates drawn (some parent) name is_dir uid gid mode rdev in
      NamesStep env o (acknowledged env o d) (names_of d) (names_of (step env o d))
unfolding step
create_refines env drawn parent name is_dir uid gid mode rdev d =
    elim (Result-cases
      (inode_create_with_rdev env drawn (some parent) name is_dir uid gid mode rdev d)) [
        | inl (x, e) ↦ rw e (refused (creates drawn (some parent) name is_dir uid gid mode rdev))
        | inr ((r, d'), e) ↦
            let row : Inode = new_inode env drawn (some parent) name is_dir uid gid mode rdev in
            let x = names_of-Created drawn row d d' r parent refl (
              inode_create_with_rdev-Created env drawn (some parent) name is_dir uid gid mode rdev d
                d' r e) in
            rw (e, x.1) (binds drawn parent name is_dir uid gid mode rdev x.0)
      ]

delete_refines :
    (env : Env) (id : ℕ) (d : Db)
    → IsTree d.inodes
    → IsLeaf id d.inodes
    → NamesStep env
        (deletes id)
        (acknowledged env (deletes id) d)
        (names_of d)
        (names_of (step env (deletes id) d))
unfolding step inode_delete
delete_refines env id d t leaf = elim (Bool-cases (env.sql_fails delete_inode)) [
  | inl e ↦ rw e (refused (deletes id))
  | inr e ↦ rw (e, names_of-delete_row id d t leaf) (unbinds id)
]

-- A rename whose transaction has come to its COMMIT, or to an error.
module _ (env : Env) (op np source : ℕ) (on nn : Bytes) (d : Db) (f : Names)
    (named : f op on ≡ some source) where
  abbrev rename : Operation
  rename = renames (some op) on (some np) nn

  abbrev moved : Names
  moved = bind np nn (some source) (bind op on none f)

  commit_refines :
      (r : CommitResult) (x : Result Db)
      → env.commit_result ≡ r
      → names_of d ≡ f
      → ((e : Db) → x ≡ ok e → names_of e ≡ moved)
      → NamesStep env rename (is_ok (commit_rename r d x).1) f (names_of (commit_rename r d x).0)
  commit_refines r (err e) c a b = subst (NamesStep env rename false f) (sym a) (refused rename)
  commit_refines committed (ok e) c a b =
      subst (NamesStep env rename true f) (sym (b e refl)) (moves op np source on nn named)
  commit_refines lost_unapplied (ok e) c a b =
      subst (NamesStep env rename false f) (sym a) (refused rename)
  commit_refines lost_applied (ok e) c a b =
      subst (NamesStep env rename false f) (sym (b e refl))
        (moves_unseen op np source on nn c named)

rename_refines :
    (env : Env) (op np : ℕ) (on nn : Bytes) (d : Db)
    → IsTree d.inodes
    → ((k : ℕ) → names_of d np nn ≡ some k → IsLeaf k d.inodes)
    → let o = renames (some op) on (some np) nn in
      NamesStep env o
        (acknowledged env o d)
        (names_of d)
        (names_of (inode_rename env (some op) on (some np) nn d).0)
unfolding inode_rename names_of
rename_refines env op np on nn d t leaf =
    elim (Bool-cases (env.sql_fails begin || env.sql_fails select_inode)) [
      | inl e ↦ rw (inode_rename, e) (refused (renames (some op) on (some np) nn))
      | inr e ↦ elim (Option-cases (find_entry (some op) on d)) [
        | inl f ↦ rw (inode_rename, e, f) (refused (renames (some op) on (some np) nn))
        | inr ((source, i), f) ↦
            let named : names_of d op on ≡ some source = rw (names_of, f) refl in
            let x = names_sound d t op source on named in
            rw (inode_rename, e, f)
              (commit_refines env op np source on nn d (names_of d) named env.commit_result
                (move env source (some np) nn d) refl refl
                (λ y h.
                  names_of-move env source op np on nn x.0 d y t x.1 x.2 (λ k g ne. leaf k g) h))
      ]
    ]

-- An operation that is an update leaves the names.
update_refines :
    (env : Env) (o : Operation) (d : Db)
    → is_update o ≡ true
    → NamesStep env o (acknowledged env o d) (names_of d) (names_of (step env o d))
update_refines env o d u =
    same_step env o (acknowledged env o d) _ _ u (names_of-IsUpdate d _ (step-IsUpdate env o d u))

pub step_refines :
    (env : Env) (o : Operation) (d : Db)
    → IsTree d.inodes
    → IsPolite o d
    → NamesStep env o (acknowledged env o d) (names_of d) (names_of (step env o d))
unfolding step
step_refines env (creates drawn (some parent) name is_dir uid gid mode rdev) d t h =
    create_refines env drawn parent name is_dir uid gid mode rdev d
step_refines env (creates drawn none name is_dir uid gid mode rdev) d t h = elim h [ ]
step_refines env (deletes id) d t h = delete_refines env id d t h
step_refines env (renames (some op) on (some np) nn) d t h = rename_refines env op np on nn d t h
step_refines env (renames none on (some np) nn) d t h = elim h [ ]
step_refines env (renames (some op) on none nn) d t h = elim h [ ]
step_refines env (renames none on none nn) d t h = elim h [ ]
step_refines env (sets_attrs id uid gid mode size) d t h =
    update_refines env (sets_attrs id uid gid mode size) d refl
step_refines env (sets_times id atime mtime) d t h =
    update_refines env (sets_times id atime mtime) d refl
step_refines env (sets_index_mode id) d t h = update_refines env (sets_index_mode id) d refl
step_refines env (touches_atime id) d t h = update_refines env (touches_atime id) d refl
step_refines env (touches_mtime id) d t h = update_refines env (touches_mtime id) d refl

-- From a well-formed table, a history in which no row that is deleted or replaced has children, and
-- each new row has a parent, refines the map from names to inodes, call by call and with the calls'
-- answers: an acknowledged creation binds its own name, which was free, to its own inode, an
-- acknowledged deletion unbinds its inode, an acknowledged rename moves the inode of its old name to its
-- new one, and any other call changes no name, as does a refused call, but for a rename whose COMMIT
-- was applied before the connection was lost.
pub run_refines :
    (ops : List (Env × Operation)) (d : Db)
    → IsTree d.inodes
    → ArePolite ops d
    → NamesRun ops (answers ops d) (names_of d) (names_of (run ops d))
unfolding run
run_refines [] d t h = done
run_refines ((env, o) ∷ ops) d t h =
    next env o ops (acknowledged env o d) (answers ops (step env o d)) (step_refines env o d t h.0)
      (run_refines ops (step env o d) (step-IsTree env o d t) h.1)
