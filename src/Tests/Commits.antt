-- ===== src/Tests/Commits.antt =====
-- Version commits at concrete inputs (crates/smartfs-db/src/versions.rs).
use smartfs.Base.{
  ℕ, ◌≡◌, refl, true, false, none, some, [], ◌∷◌, lookup, insert, remove, nat_eq, bytes_eq,
}
use smartfs.Schema.Error.{ok}
use smartfs.Db.Models.{Db, Inode, FileVersion, committed, Env}
use smartfs.Db.Versions.{
  Commit, CowCommitOutcome, cow_commit_tx, new_version, max_version, latest_version,
  version_numbered, write_version, update_pointer, blob_or_empty_or_virtual, insert_nodes, pointed,
}
use smartfs.Db.History.{version_get}
use smartfs.Db.History.Reading.{version_get-cow_commit_tx}
use smartfs.Db.Versions.Numbers.{Effect, cow_commit_tx-Effect}

-- Everything works.
abbrev pub up : Env
up = record {
  now = 1000;
  sql_fails = λ s. false;
  commit_result = committed;
  read_fails = false;
  remove_fails = false;
  store_fails = λ s. false;
}

-- An empty file, number 7, and its first version.
abbrev pub inode : Inode
inode = record {
  ino = 2;
  parent_id = some 1;
  name = b'f' ∷ [];
  uid = 1000;
  gid = 1000;
  mode = 33188;
  rdev = 0;
  atime = 0;
  backend_id = none;
  compression_level = 3;
  dedup_enabled = true;
  is_dir = false;
  on_prem = true;
  versioning_enabled = true;
  current_blob_id = none;
  size = 0;
  mtime = 0;
  updated_at = 0;
}

abbrev pub commit : ℕ → Commit
commit id = record {
  version_id = id;
  inode_id = 7;
  blob_id = some 50;
  content_hash = b'h' ∷ [];
  size = 3;
  compressed_size = none;
  external_path = none;
  special_type = none;
  special_data = none;
  ast_nodes = [];
}

abbrev pub first : FileVersion
first = new_version (commit 20) 1 none

abbrev before : Db
before = record {
  inodes = (7, inode) ∷ [];
  versions = (20, first) ∷ [];
  blobs = [];
  ast_nodes = [];
}

abbrev after : Db
after = record {
  inodes = (7, pointed up (commit 21) inode) ∷ [];
  versions = (21, new_version (commit 21) 2 (some 20)) ∷ (20, first) ∷ [];
  blobs = [];
  ast_nodes = [];
}

abbrev outcome : CowCommitOutcome
outcome = record { version_id = 21; version_number = 2; inserted = true }

committed_second : cow_commit_tx up (commit 21) before ≡ ok (outcome, after)
unfolding cow_commit_tx max_version latest_version version_numbered write_version update_pointer
    blob_or_empty_or_virtual insert_nodes lookup insert remove
committed_second = refl

cow_commit_tx-Effect_example : Effect up (commit 21) before outcome after
cow_commit_tx-Effect_example =
    cow_commit_tx-Effect up (commit 21) before after outcome committed_second

version_get-cow_commit_tx_example :
    version_get false 7 none after ≡ ok (some (21, new_version (commit 21) 2 (some 20)))
unfolding latest_version max_version version_numbered
version_get-cow_commit_tx_example =
    version_get-cow_commit_tx up (commit 21) before after outcome committed_second refl
