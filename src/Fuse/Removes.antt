-- ===== src/Fuse/Removes.antt =====
-- The callbacks that remove and rename entries: `unlink`, `rmdir`, `rename` and `link`
-- (crates/smartfs-fuse/src/fs.rs).
use smartfs.Base.{
  ℕ, Bool, true, false, not, ◌||◌, Option, none, some, List, [], ◌∷◌, Bytes, length, ltb, nat_eq,
  if◌then◌else◌, remove,
}
use smartfs.Schema.Error.{
  Result, ok, err, einval, eperm, enotdir, enotempty, enotsup, enametoolong, ◌>>=◌,
}
use smartfs.Db.Models.{Db, Inode, Env, select_inode, delete}
use smartfs.Db.Inodes.{inode_lookup, inode_delete, inode_list_children, inode_rename}
use smartfs.Db.Inventory.{private_blob_of_inode}
use smartfs.Handles.{mark_for_deletion}
use smartfs.Fuse.{
  Mount, Reply, reply, error, answer, Codec, Checker, db_of, with_db, with_blobs, with_state,
  check_name, find_by_ino, remember, blob_bytes, unwrap_or,
}
use smartfs.Fuse.Lookups.{find_child, not_marked}

-- The entry that is to go. Its directory is read from the table, not from the cache.
unfoldable pub find_entry_of : Env → ℕ → Bytes → Mount → Result (ℕ × Inode)
find_entry_of env parent name m = do
  directory ← find_by_ino env parent m
  find_child env directory.0 name m

-- `store.delete`, whose failure is logged.
unfoldable pub free_blob : Env → Option ℕ → Mount → Mount
free_blob env none m = m
free_blob env (some blob_id) m =
    if env.store_fails delete then m else with_blobs (remove blob_id m.pipe.world.blobs) m

abbrev pub deleted : Env → Option ℕ → Mount → Result Db → Mount × Reply (Unit {0})
deleted env private_blob m (err e) = (m, answer (err e))
deleted env private_blob m (ok d) = (free_blob env private_blob (with_db d m), reply tt)

-- The inode goes at once if nothing has it open, and is marked if something has.
unfoldable pub delete_or_mark : Env → Option ℕ → ℕ → Mount → Mount × Reply (Unit {0})
delete_or_mark env private_blob id m =
    let (s, now) = mark_for_deletion id m.state in
    if now
    then deleted env private_blob (with_state s m) (inode_delete env id (db_of m))
    else (with_state s m, reply tt)

abbrev unlink_entry : Env → Mount → Result (ℕ × Inode) → Mount × Reply (Unit {0})
unlink_entry env m (err e) = (m, answer (err e))
unlink_entry env m (ok (id, i)) =
    if i.is_dir
    then (m, error eperm)
    else delete_or_mark env
        (unwrap_or (private_blob_of_inode (env.sql_fails select_inode) id (db_of m)) none) id m

abbrev unlink_name : Env → ℕ → Mount → Reply Bytes → Mount × Reply (Unit {0})
unlink_name env parent m (error e) = (m, error e)
unlink_name env parent m (reply name) = unlink_entry env m (find_entry_of env parent name m)

unfoldable pub unlink : Env → ℕ → Option Bytes → Mount → Mount × Reply (Unit {0})
unlink env parent name m = unlink_name env parent m (check_name name)

abbrev is_nil {ℓ} : {A : Type ℓ} → List A → Bool
is_nil [] = true
is_nil (x ∷ l) = false

abbrev rmdir_children : Env → ℕ → Mount → Result (List (ℕ × Inode)) → Mount × Reply (Unit {0})
rmdir_children env id m (err e) = (m, answer (err e))
rmdir_children env id m (ok children) =
    if is_nil (not_marked m children) then delete_or_mark env none id m else (m, error enotempty)

abbrev rmdir_entry : Env → Mount → Result (ℕ × Inode) → Mount × Reply (Unit {0})
rmdir_entry env m (err e) = (m, answer (err e))
rmdir_entry env m (ok (id, i)) =
    if not i.is_dir
    then (m, error enotdir)
    else rmdir_children env id m (inode_list_children env (some id) (db_of m))

abbrev rmdir_name : Env → ℕ → Mount → Reply Bytes → Mount × Reply (Unit {0})
rmdir_name env parent m (error e) = (m, error e)
rmdir_name env parent m (reply name) = rmdir_entry env m (find_entry_of env parent name m)

unfoldable pub rmdir : Env → ℕ → Option Bytes → Mount → Mount × Reply (Unit {0})
rmdir env parent name m = rmdir_name env parent m (check_name name)

-- Hard links are not supported.
unfoldable pub link : ℕ → ℕ → Option Bytes → Mount → Reply (Unit {0})
link ino parent name m = error enotsup

module _ (codec : Codec) (checker : Checker) where
  -- The check of the content's syntax under the new name: of what is committed, at the old name.
  unfoldable pub check_renamed : Env → ℕ → Bytes → Bytes → Mount → Result (Unit {0})
  check_renamed env parent_id name new_name m =
      if m.force || not (checker.detects new_name) then ok tt else do
        source ← inode_lookup env (some parent_id) name (db_of m)
        elim source [
          | none ↦ ok tt
          | some (id, i) ↦ do
            content ← blob_bytes codec env i.current_blob_id m
            nodes ← checker.extract content new_name
            ok tt
        ]

  abbrev renamed : ℕ × Inode → ℕ × Inode → Mount → Db × Result (Unit {0}) → Mount × Reply (Unit {0})
  renamed from to m (d, err e) = (with_db d m, answer (err e))
  renamed from to m (d, ok _) =
      (remember to.1.ino to.0 (remember from.1.ino from.0 (with_db d m)), reply tt)

  abbrev rename_checked :
      Env
      → Bytes
      → Bytes
      → ℕ × Inode
      → ℕ × Inode
      → Mount
      → Result (Unit {0})
      → Mount × Reply (Unit {0})
  rename_checked env name new_name from to m (err e) = (m, answer (err e))
  rename_checked env name new_name from to m (ok _) =
      renamed from to m (inode_rename env (some from.0) name (some to.0) new_name (db_of m))

  -- The old and the new directory, read from the table.
  unfoldable pub both_parents : Env → ℕ → ℕ → Mount → Result ((ℕ × Inode) × (ℕ × Inode))
  both_parents env parent new_parent m = do
    from ← find_by_ino env parent m
    to ← find_by_ino env new_parent m
    ok (from, to)

  abbrev rename_between :
      Env → Bytes → Bytes → Mount → Result ((ℕ × Inode) × (ℕ × Inode)) → Mount × Reply (Unit {0})
  rename_between env name new_name m (err e) = (m, answer (err e))
  rename_between env name new_name m (ok (from, to)) =
      rename_checked env name new_name from to m (check_renamed env from.0 name new_name m)

  abbrev rename_names : Env → ℕ → ℕ → Mount → Option Bytes → Option Bytes → Mount × Reply (Unit {0})
  rename_names env parent new_parent m none new_name = (m, error einval)
  rename_names env parent new_parent m (some name) none = (m, error einval)
  rename_names env parent new_parent m (some name) (some new_name) =
      if ltb 255 (length name) || ltb 255 (length new_name)
      then (m, error enametoolong)
      else rename_between env name new_name m (both_parents env parent new_parent m)

  unfoldable pub rename :
      Env → ℕ → Option Bytes → ℕ → Option Bytes → Mount → Mount × Reply (Unit {0})
  rename env parent name new_parent new_name m = rename_names env parent new_parent m name new_name
