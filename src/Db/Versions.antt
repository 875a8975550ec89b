-- ===== src/Db/Versions.antt =====
-- The version commit (crates/smartfs-db/src/versions.rs), a transaction at a time. A transaction that
-- returns an error is dropped by its caller, so its changes are those of a state that is not kept.
-- `unique_version_per_inode` cannot be broken by `MAX + 1`, and is not tested again.
pub mod Numbers
use smartfs.Base.{
  ℕ, ◌+◌, ◌-◌, ◌^◌, Bool, true, false, ◌&&◌, ◌||◌, not, Option, none, some, List, [], ◌∷◌, ◌++◌,
  Bytes, nat_eq, bytes_eq, ltb, leb, max, ◌==◌, if◌then◌else◌, Map, lookup, insert, modify,
}
use smartfs.Schema.Error.{Result, ok, err, db, ◌>>=◌, ◌>>◌}
use smartfs.Db.Models.{
  Db, Inode, FileVersion, AstNodeInsert, Statement, begin, lock_inode, next_version, prev_version,
  insert_version, insert_ast_node, update_inode, CommitResult, committed, lost_unapplied,
  lost_applied, Env,
}

pub record CowCommitOutcome : Type 0 where
  pub version_id : ℕ
  pub version_number : ℕ
  pub inserted : Bool

-- COALESCE(MAX(version_number), 0) of an inode
unfoldable pub max_version : ℕ → Map ℕ FileVersion → ℕ
max_version inode_id [] = 0
max_version inode_id ((id, v) ∷ rest) =
    max (if v.inode_id == inode_id then v.version_number else 0) (max_version inode_id rest)

-- ORDER BY version_number DESC LIMIT 1: the row of an inode that has a given number.
unfoldable pub version_numbered : ℕ → ℕ → Map ℕ FileVersion → Option ℕ
version_numbered inode_id n [] = none
version_numbered inode_id n ((id, v) ∷ rest) =
    if v.inode_id == inode_id && v.version_number == n
    then some id
    else version_numbered inode_id n rest

-- ON CONFLICT (version_id, content_hash) DO NOTHING
unfoldable pub has_node : ℕ → Bytes → List (ℕ × AstNodeInsert) → Bool
has_node version_id hash [] = false
has_node version_id hash ((id, node) ∷ rest) =
    if id == version_id && node.content_hash == hash then true else has_node version_id hash rest

unfoldable pub insert_nodes :
    ℕ → List AstNodeInsert → List (ℕ × AstNodeInsert) → List (ℕ × AstNodeInsert)
insert_nodes version_id [] table = table
insert_nodes version_id (node ∷ nodes) table =
    insert_nodes version_id nodes
      (if has_node version_id node.content_hash table then table else (version_id, node) ∷ table)

abbrev pub is_none {ℓ} : {A : Type ℓ} → Option A → Bool
is_none none = true
is_none (some a) = false

-- The CHECK constraint `blob_or_empty_or_virtual` of `inode_registry`.
unfoldable pub blob_or_empty_or_virtual : Inode → Bool
blob_or_empty_or_virtual i =
    i.is_dir
    || not i.on_prem
    || not i.versioning_enabled
    || (is_none i.current_blob_id && i.size == 0)
    || not (is_none i.current_blob_id)

abbrev generic : Bytes
generic = b'g' ∷ b'e' ∷ b'n' ∷ b'e' ∷ b'r' ∷ b'i' ∷ b'c' ∷ []

abbrev pub is_empty {ℓ} : {A : Type ℓ} → List A → Bool
is_empty [] = true
is_empty (x ∷ xs) = false

abbrev pub or_else {ℓ} : {A : Type ℓ} → Option A → A → A
or_else none d = d
or_else (some a) d = a

abbrev pub fail_if : Bool → Result (Unit {0})
fail_if true = err db
fail_if false = ok tt

-- The arguments of a commit, which `cow_commit`, `cow_commit_with_id` and `cow_commit_tx` share.
pub record Commit : Type 0 where
  pub version_id : ℕ
  pub inode_id : ℕ
  pub blob_id : Option ℕ
  pub content_hash : Bytes
  pub size : ℕ
  pub compressed_size : Option ℕ
  pub external_path : Option Bytes
  pub special_type : Option Bytes
  pub special_data : Option Bytes
  pub ast_nodes : List AstNodeInsert

abbrev pub new_version : Commit → ℕ → Option ℕ → FileVersion
new_version c number parent = record {
  inode_id = c.inode_id;
  version_number = number;
  blob_id = c.blob_id;
  size = c.size;
  compressed_size = c.compressed_size;
  external_path = c.external_path;
  content_hash = c.content_hash;
  special_type = or_else c.special_type generic;
  special_data = or_else c.special_data (b'{' ∷ b'}' ∷ []);
  parent_version_id = parent;
}

abbrev pub pointed : Env → Commit → Inode → Inode
pointed env c i = record i {
  current_blob_id = c.blob_id;
  size = c.size;
  mtime = env.now;
  updated_at = env.now;
}

-- Step 6, which the CHECK constraint may refuse.
unfoldable pub update_pointer : Env → Commit → Inode → Db → Result Db
update_pointer env c inode d = do
  fail_if (env.sql_fails update_inode || not (blob_or_empty_or_virtual (pointed env c inode)))
  ok (record d { inodes = insert c.inode_id (pointed env c inode) d.inodes })

-- Steps 4 to 6, with the inode locked and the number and the parent known.
unfoldable pub write_version :
    Env → Commit → Inode → ℕ → Option ℕ → Db → Result (CowCommitOutcome × Db)
write_version env c inode number parent d = elim (lookup c.version_id d.versions) [
  | some _ ↦ do
    fail_if (env.sql_fails insert_version)
    ok (record { version_id = c.version_id; version_number = number; inserted = false }, d)
  | none ↦ do
    fail_if (env.sql_fails insert_version)
    fail_if (env.sql_fails insert_ast_node && not (is_empty c.ast_nodes))
    d' ← update_pointer env c inode (record d {
      versions = insert c.version_id (new_version c number parent) d.versions;
      ast_nodes = insert_nodes c.version_id c.ast_nodes d.ast_nodes;
    })
    ok (record { version_id = c.version_id; version_number = number; inserted = true }, d')
]

-- An `INT` column holds no more.
abbrev pub max_i32 : ℕ
max_i32 = 2 ^ 31 - 1

-- Step 3: the latest version of an inode, if it has one.
unfoldable pub latest_version : ℕ → Map ℕ FileVersion → Option ℕ
latest_version inode_id versions =
    version_numbered inode_id (max_version inode_id versions) versions

unfoldable pub cow_commit_tx : Env → Commit → Db → Result (CowCommitOutcome × Db)
cow_commit_tx env c d = do
  fail_if (env.sql_fails lock_inode)
  elim (lookup c.inode_id d.inodes) [
    | none ↦ ok (record { version_id = c.version_id; version_number = 0; inserted = false }, d)
    | some inode ↦ do
      let last = max_version c.inode_id d.versions
      fail_if (env.sql_fails next_version || leb max_i32 last)
      fail_if (env.sql_fails prev_version)
      write_version env c inode (last + 1) (latest_version c.inode_id d.versions) d
  ]

-- A COMMIT of `after` over `before`, for a caller that is to get `a`.
abbrev pub commit_tx {ℓ} : {A : Type ℓ} → CommitResult → Db → Db → A → Db × Result A
commit_tx committed before after a = (after, ok a)
commit_tx lost_unapplied before after a = (before, err db)
commit_tx lost_applied before after a = (after, err db)

-- COMMIT if a row was inserted, ROLLBACK if not, and an error drops the transaction.
abbrev pub finish : Env → Db → Result (CowCommitOutcome × Db) → Db × Result CowCommitOutcome
finish env d (err e) = (d, err e)
finish env d (ok (outcome, d')) =
    if outcome.inserted then commit_tx env.commit_result d d' outcome else (d, ok outcome)

unfoldable pub cow_commit_with_id : Env → Commit → Db → Db × Result CowCommitOutcome
cow_commit_with_id env c d =
    if env.sql_fails begin then (d, err db) else finish env d (cow_commit_tx env c d)
