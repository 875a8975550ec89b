-- ===== src/Db/Inodes.antt =====
-- The rows of `inode_registry` as names in directories (crates/smartfs-db/src/inodes.rs), with the
-- table's constraints (migrations/001_core_schema.sql): `ino` is unique, `unique_name_per_directory`
-- treats NULL parents as distinct, and `parent_id`, `file_versions.inode_id` and
-- `ast_nodes.version_id` are foreign keys that cascade a deletion.
pub mod Rows
pub mod Tree
pub mod Insertions
pub mod Cascade
pub mod Below
pub mod Moves
pub mod Names
pub mod Renames
pub mod Replacing
pub mod Operations
pub mod Refinement
use smartfs.Base.{
  ℕ, zero, suc, ◌+◌, Bool, true, false, not, ◌&&◌, ◌||◌, Option, none, some, is_some, List, [], ◌∷◌,
  Bytes, nat_eq, bytes_eq, ltb, ◌==◌, if◌then◌else◌, length, Map, lookup, insert, remove, modify,
  retain,
}
use smartfs.Schema.Error.{SmartFsError, not_found, db, Result, ok, err, ◌>>=◌, ◌>>◌}
use smartfs.Db.Models.{
  Db, Inode, FileVersion, AstNodeInsert, Blob, Env, Statement, begin, select_inode, insert_inode,
  delete_inode, update_attrs, CommitResult, committed, lost_unapplied, lost_applied,
}
use smartfs.Db.Versions.{blob_or_empty_or_virtual, fail_if, or_else}
use Rows.{find_row}

-- IS NOT DISTINCT FROM
abbrev pub same_parent : Option ℕ → Option ℕ → Bool
same_parent none none = true
same_parent none (some b) = false
same_parent (some a) none = false
same_parent (some a) (some b) = a == b

unfoldable pub is_entry : Option ℕ → Bytes → Inode → Bool
is_entry parent name i = same_parent parent i.parent_id && i.name == name

unfoldable pub find_entry : Option ℕ → Bytes → Db → Option (ℕ × Inode)
find_entry parent name d = find_row (is_entry parent name) d.inodes

unfoldable pub find_ino : ℕ → Db → Option (ℕ × Inode)
find_ino ino d = find_row (λ i. i.ino == ino) d.inodes

abbrev pub with_id : ℕ → Option Inode → Option (ℕ × Inode)
with_id id none = none
with_id id (some i) = some (id, i)

unfoldable pub inode_lookup : Env → Option ℕ → Bytes → Db → Result (Option (ℕ × Inode))
inode_lookup env parent name d = do
  fail_if (env.sql_fails select_inode)
  ok (find_entry parent name d)

unfoldable pub inode_lookup_by_ino : Env → ℕ → Db → Result (Option (ℕ × Inode))
inode_lookup_by_ino env ino d = do fail_if (env.sql_fails select_inode); ok (find_ino ino d)

unfoldable pub inode_get : Env → ℕ → Db → Result (Option (ℕ × Inode))
inode_get env id d = do fail_if (env.sql_fails select_inode); ok (with_id id (lookup id d.inodes))

-- What the server draws for a new row: `uuid_generate_v4()` and the next number of the sequence.
pub record Drawn : Type 0 where
  pub id : ℕ
  pub ino : ℕ

-- The columns that an INSERT gives; the others have their defaults.
abbrev pub new_inode : Env → Drawn → Option ℕ → Bytes → Bool → ℕ → ℕ → ℕ → ℕ → Inode
new_inode env drawn parent name is_dir uid gid mode rdev = record {
  ino = drawn.ino;
  parent_id = parent;
  name = name;
  uid = uid;
  gid = gid;
  mode = mode;
  rdev = rdev;
  atime = env.now;
  backend_id = none;
  compression_level = 3;
  dedup_enabled = true;
  is_dir = is_dir;
  on_prem = true;
  versioning_enabled = true;
  current_blob_id = none;
  size = 0;
  mtime = env.now;
  updated_at = env.now;
}

-- Whether a row with this parent and name breaks `unique_name_per_directory` or the foreign key.
unfoldable pub admits_entry : Option ℕ → Bytes → Db → Bool
admits_entry none name d = true
admits_entry (some p) name d =
    is_some (lookup p d.inodes) && not (is_some (find_entry (some p) name d))

unfoldable pub admits_key : Drawn → Db → Bool
admits_key drawn d =
    not (is_some (lookup drawn.id d.inodes)) && not (is_some (find_ino drawn.ino d))

unfoldable pub inode_create_with_rdev :
    Env → Drawn → Option ℕ → Bytes → Bool → ℕ → ℕ → ℕ → ℕ → Db → Result ((ℕ × Inode) × Db)
inode_create_with_rdev env drawn parent name is_dir uid gid mode rdev d = do
  fail_if
      (env.sql_fails insert_inode || not (admits_entry parent name d) || not (admits_key drawn d))
  let row = new_inode env drawn parent name is_dir uid gid mode rdev
  ok ((drawn.id, row), record d { inodes = insert drawn.id row d.inodes })

unfoldable pub inode_create :
    Env → Drawn → Option ℕ → Bytes → Bool → ℕ → ℕ → ℕ → Db → Result ((ℕ × Inode) × Db)
inode_create env drawn parent name is_dir uid gid mode d =
    inode_create_with_rdev env drawn parent name is_dir uid gid mode 0 d

unfoldable pub has_parent : Map ℕ Inode → Inode → Bool
has_parent rows i = elim i.parent_id [ none ↦ true | some p ↦ is_some (lookup p rows) ]

-- ON DELETE CASCADE among the inodes: the rows whose parent is gone go, as often as there are any.
unfoldable pub cascade : ℕ → Map ℕ Inode → Map ℕ Inode
cascade zero rows = rows
cascade (suc n) rows = cascade n (retain (has_parent rows) rows)

unfoldable pub nodes_of : Map ℕ FileVersion → List (ℕ × AstNodeInsert) → List (ℕ × AstNodeInsert)
nodes_of versions [] = []
nodes_of versions ((id, node) ∷ rest) =
    let more = nodes_of versions rest in
    if is_some (lookup id versions) then (id, node) ∷ more else more

-- The tables once the rows of `inodes` are those that are left.
abbrev pub with_inodes : Map ℕ Inode → Db → Db
with_inodes inodes d =
    let versions = retain (λ v. is_some (lookup v.inode_id inodes)) d.versions in
    record d { inodes = inodes; versions = versions; ast_nodes = nodes_of versions d.ast_nodes }

unfoldable pub remaining : ℕ → Map ℕ Inode → Map ℕ Inode
remaining id rows = cascade (length rows) (remove id rows)

unfoldable pub delete_row : ℕ → Db → Db
delete_row id d = with_inodes (remaining id d.inodes) d

unfoldable pub inode_delete : Env → ℕ → Db → Result Db
inode_delete env id d = do fail_if (env.sql_fails delete_inode); ok (delete_row id d)

-- WHERE parent_id IS NOT DISTINCT FROM … ORDER BY ino
unfoldable pub insert_by_ino : ℕ × Inode → List (ℕ × Inode) → List (ℕ × Inode)
insert_by_ino x [] = x ∷ []
insert_by_ino x (y ∷ l) =
    let rest = insert_by_ino x l in if ltb y.1.ino x.1.ino then y ∷ rest else x ∷ y ∷ l

unfoldable pub children_of : Option ℕ → Map ℕ Inode → List (ℕ × Inode)
children_of parent [] = []
children_of parent ((id, i) ∷ rest) =
    let more = children_of parent rest in
    if same_parent parent i.parent_id then insert_by_ino (id, i) more else more

unfoldable pub inode_list_children : Env → Option ℕ → Db → Result (List (ℕ × Inode))
inode_list_children env parent d = do
  fail_if (env.sql_fails select_inode)
  ok (children_of parent d.inodes)

-- An UPDATE of one row that the CHECK constraint may refuse and that must find it (`fetch_one`).
abbrev pub update_row : Env → ℕ → (Inode → Inode) → Db → Result ((ℕ × Inode) × Db)
update_row env id f d = do
  fail_if (env.sql_fails update_attrs)
  elim (lookup id d.inodes) [
    | none ↦ err db
    | some i ↦ do
      fail_if (not (blob_or_empty_or_virtual (f i)))
      ok ((id, f i), record d { inodes = modify id f d.inodes })
  ]

-- COALESCE keeps a column whose argument is NULL.
abbrev pub set_attrs : Env → Option ℕ → Option ℕ → Option ℕ → Option ℕ → Inode → Inode
set_attrs env uid gid mode size i = record i {
  uid = or_else uid i.uid;
  gid = or_else gid i.gid;
  mode = or_else mode i.mode;
  size = or_else size i.size;
  updated_at = env.now;
}

unfoldable pub inode_update_attrs :
    Env → ℕ → Option ℕ → Option ℕ → Option ℕ → Option ℕ → Db → Result ((ℕ × Inode) × Db)
inode_update_attrs env id uid gid mode size = update_row env id (set_attrs env uid gid mode size)

abbrev pub set_times : Env → Option ℕ → Option ℕ → Inode → Inode
set_times env atime mtime i = record i {
  atime = or_else atime i.atime;
  mtime = or_else mtime i.mtime;
  updated_at = env.now;
}

unfoldable pub inode_set_times : Env → ℕ → Option ℕ → Option ℕ → Db → Result ((ℕ × Inode) × Db)
inode_set_times env id atime mtime = update_row env id (set_times env atime mtime)

-- Step 2 of a rename: a target that is not the source is deleted.
abbrev pub without_target : ℕ → Option (ℕ × Inode) → Db → Db
without_target source none d = d
without_target source (some (target, i)) d = if target == source then d else delete_row target d

-- The foreign key of `parent_id`.
unfoldable pub has_key : Option ℕ → Map ℕ Inode → Bool
has_key none rows = true
has_key (some p) rows = is_some (lookup p rows)

abbrev pub place : Env → Option ℕ → Bytes → Inode → Inode
place env parent name i = record i { parent_id = parent; name = name; updated_at = env.now }

-- Step 3, on the row that is there still. If the deletion has taken it, no row is updated.
-- `unique_name_per_directory` cannot be broken, since the target is gone.
unfoldable pub relocate : Env → ℕ → Option ℕ → Bytes → Db → Result Db
relocate env source parent name d = elim (lookup source d.inodes) [
  | none ↦ ok d
  | some i ↦
      if has_key parent d.inodes
      then ok (record d { inodes = modify source (place env parent name) d.inodes })
      else err db
]

-- Steps 2 and 3, with the source known.
unfoldable pub move : Env → ℕ → Option ℕ → Bytes → Db → Result Db
move env source parent name d = do
  fail_if (env.sql_fails delete_inode || env.sql_fails update_attrs)
  relocate env source parent name (without_target source (find_entry parent name d) d)

abbrev pub commit_rename : CommitResult → Db → Result Db → Db × Result (Unit {0})
commit_rename r d (err e) = (d, err e)
commit_rename committed d (ok d') = (d', ok tt)
commit_rename lost_unapplied d (ok d') = (d, err db)
commit_rename lost_applied d (ok d') = (d', err db)

unfoldable pub inode_rename :
    Env → Option ℕ → Bytes → Option ℕ → Bytes → Db → Db × Result (Unit {0})
inode_rename env old_parent old_name new_parent new_name d =
    if env.sql_fails begin || env.sql_fails select_inode
    then (d, err db)
    else elim (find_entry old_parent old_name d) [
      | none ↦ (d, err not_found)
      | some (source, i) ↦ commit_rename env.commit_result d (move env source new_parent new_name d)
    ]

abbrev pub in_index_mode : Env → Inode → Inode
in_index_mode env i = record i { versioning_enabled = false; on_prem = false; updated_at = env.now }

unfoldable pub inode_set_index_mode : Env → ℕ → Db → Result Db
inode_set_index_mode env id d = do
  fail_if (env.sql_fails update_attrs)
  ok (record d { inodes = modify id (in_index_mode env) d.inodes })

-- A day, in the unit of the times.
abbrev pub day : ℕ
day = 86400

unfoldable pub is_stale : ℕ → Inode → Bool
is_stale now i = ltb i.atime i.mtime || ltb i.atime i.updated_at || ltb (i.atime + day) now

abbrev pub accessed : Env → Inode → Inode
accessed env i = record i { atime = env.now }

-- Whether a row was updated.
unfoldable pub inode_touch_atime_relatime : Env → ℕ → Db → Result (Bool × Db)
inode_touch_atime_relatime env id d = do
  fail_if (env.sql_fails update_attrs)
  elim (lookup id d.inodes) [
    | none ↦ ok (false, d)
    | some i ↦
        if is_stale env.now i
        then ok (true, record d { inodes = modify id (accessed env) d.inodes })
        else ok (false, d)
  ]

abbrev pub written : Env → Inode → Inode
written env i = record i { mtime = env.now; updated_at = env.now }

unfoldable pub inode_touch_mtime : Env → ℕ → Db → Result Db
inode_touch_mtime env id d = do
  fail_if (env.sql_fails update_attrs)
  ok (record d { inodes = modify id (written env) d.inodes })
