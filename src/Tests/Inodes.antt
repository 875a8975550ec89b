-- ===== src/Tests/Inodes.antt =====
-- The registry of inodes at concrete inputs (crates/smartfs-db/src/inodes.rs).
use smartfs.Base.{
  ℕ, ◌≡◌, refl, Bool, true, false, Option, none, some, List, [], ◌∷◌, lookup, remove, modify,
  retain, nat_eq, bytes_eq, bytes_beq, arith, Bytes, Map,
}
use smartfs.Db.Models.{Db, Inode, Env}
use smartfs.Db.Inodes.{
  inode_delete, inode_rename, has_parent, cascade, remaining, is_entry, find_entry, new_inode, move,
  relocate, has_key, delete_row, nodes_of,
}
use smartfs.Db.Inodes.Rows.{find_row}
use smartfs.Db.Inodes.Below.{DeletesBelow, inode_delete-DeletesBelow}
use smartfs.Db.Inodes.Tree.{IsTree, is_entry_sound}
use smartfs.Db.Inodes.Names.{names_of}
use smartfs.Db.Inodes.Operations.{Operation, creates, renames, sets_attrs, run, run-IsTree}
use smartfs.Db.Inodes.Refinement.{NamesRun, answers, ArePolite, run_refines}
use smartfs.Db.Inodes.Replacing.{inode_rename_discards_contents}
use smartfs.Tests.Commits.{up}

abbrev pub entry : (id ino : ℕ) → Option ℕ → Bytes → Bool → Inode
entry id ino parent name is_dir =
    new_inode up (record { id = id; ino = ino }) parent name is_dir 1000 1000 0 0

abbrev pub name_d : Bytes
name_d = b'd' ∷ []

abbrev pub name_e : Bytes
name_e = b'e' ∷ []

abbrev pub name_f : Bytes
name_f = b'f' ∷ []

-- `/`, `/d`, `/d/f` and `/e`.
abbrev pub rows : Map ℕ Inode
rows =
    (1, entry 1 1 none [] true)
    ∷ (10, entry 10 2 (some 1) name_d true)
    ∷ (11, entry 11 3 (some 10) name_f false)
    ∷ (12, entry 12 4 (some 1) name_e true)
    ∷ []

abbrev pub tables : Map ℕ Inode → Db
tables rows = record { inodes = rows; versions = []; blobs = []; ast_nodes = [] }

pub rows-IsTree : IsTree rows
unfolding lookup has_parent
rows-IsTree = record {
  distinct = ground arith;
  names = λ j k p name v w e f a b.
      ground (arith, e, f, is_entry_sound p name v a, is_entry_sound p name w b);
  numbers = λ j k v w e f a. ground (arith, e, f, a);
  parents = λ k i e. ground (arith, e);
}

-- `/e` is moved to `/g`, and its mode is changed; then a file is made in it.
abbrev history : List (Env × Operation)
history =
    (up, renames (some 1) name_e (some 1) (b'g' ∷ []))
    ∷ (up, sets_attrs 12 none none (some 511) none)
    ∷ (up, creates (record { id = 13; ino = 5 }) (some 12) name_f false 0 0 0 0)
    ∷ []

run-IsTree_example : IsTree (run history (tables rows)).inodes
run-IsTree_example = run-IsTree history (tables rows) rows-IsTree

history-ArePolite : ArePolite history (tables rows)
unfolding names_of find_entry find_row is_entry bytes_beq
history-ArePolite = (λ k h. ground (arith, h), (tt, (tt, tt)))

run_refines_example :
    NamesRun history
      (answers history (tables rows))
      (names_of (tables rows))
      (names_of (run history (tables rows)))
run_refines_example = run_refines history (tables rows) rows-IsTree history-ArePolite

-- `/e` is renamed to `/d`, which holds a file.
abbrev replaced : Db
replaced = (inode_rename up (some 1) name_e (some 1) name_d (tables rows)).0

inode_rename_discards_contents_example :
    (lookup 10 replaced.inodes ≡ none) × (lookup 11 replaced.inodes ≡ none)
unfolding lookup names_of find_entry find_row is_entry bytes_beq inode_rename move relocate
    delete_row remaining cascade retain has_parent remove modify has_key nodes_of
inode_rename_discards_contents_example =
    inode_rename_discards_contents up 1 name_e 1 name_d (tables rows) replaced 10 11
      (entry 11 3 (some 10) name_f false) rows-IsTree refl (λ h. ground (arith, h)) refl refl refl

-- `/d` is deleted, and the file in it goes with it.
abbrev without_d : Db
without_d = delete_row 10 (tables rows)

inode_delete-DeletesBelow_example : DeletesBelow 10 rows without_d.inodes
unfolding inode_delete
inode_delete-DeletesBelow_example =
    inode_delete-DeletesBelow up 10 (tables rows) without_d rows-IsTree refl
