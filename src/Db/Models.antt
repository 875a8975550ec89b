-- ===== src/Db/Models.antt =====
-- The rows that the commit path reads and writes (crates/smartfs-db/src/models.rs, with the
-- columns and constraints of migrations/001_core_schema.sql, 004_ast_nodes.sql,
-- 007_special_file_types.sql, 008_posix_timestamps.sql and 009_per_inode_dedup.sql), and
-- what may go wrong around a call. A table is a map by primary key; times are numbers.
use smartfs.Base.{ℕ, Bool, Option, List, Map, Bytes}

pub record AstNodeInsert : Type 0 where
  pub kind : Bytes
  pub name : Bytes
  pub start_line : ℕ
  pub end_line : ℕ
  pub source : Bytes
  pub content_hash : Bytes

-- A row of `inode_registry` without its key. `uid`, `gid` and `mode` are the 32 bits of an `INT`
-- column; `nlink`, which is 1 and never updated, is left out.
pub record Inode : Type 0 where
  pub ino : ℕ
  pub parent_id : Option ℕ
  pub name : Bytes
  pub uid : ℕ
  pub gid : ℕ
  pub mode : ℕ
  pub rdev : ℕ
  pub atime : ℕ
  pub backend_id : Option ℕ
  pub compression_level : ℕ
  pub dedup_enabled : Bool
  pub is_dir : Bool
  pub on_prem : Bool
  pub versioning_enabled : Bool
  pub current_blob_id : Option ℕ
  pub size : ℕ
  pub mtime : ℕ
  pub updated_at : ℕ

pub record FileVersion : Type 0 where
  pub inode_id : ℕ
  pub version_number : ℕ
  pub blob_id : Option ℕ
  pub size : ℕ
  pub compressed_size : Option ℕ
  pub external_path : Option Bytes
  pub content_hash : Bytes
  pub special_type : Bytes
  pub special_data : Bytes
  pub parent_version_id : Option ℕ

pub record Blob : Type 0 where
  pub content_hash : Bytes
  pub backend_id : Option ℕ
  pub size : ℕ
  pub compressed_size : Option ℕ
  pub shared : Bool
  pub created_at : ℕ

pub record Db : Type 0 where
  pub inodes : Map ℕ Inode
  pub versions : Map ℕ FileVersion
  pub blobs : Map ℕ Blob
  pub ast_nodes : List (ℕ × AstNodeInsert)

pub record BlobInsertResult : Type 0 where
  pub blob_id : ℕ
  pub inserted : Bool

-- The statements, each of which the server or the connection may fail: those of a commit, and those
-- on `inode_registry` and on `blobs` by content hash.
pub data Statement : Type 0 where
  begin insert_blob lock_inode next_version prev_version : Statement
  insert_version insert_ast_node update_inode : Statement
  select_inode insert_inode delete_inode update_attrs : Statement
  delete_blob_rows update_blob_rows : Statement

-- How a COMMIT may end: with a failure it may have been applied or not.
pub data CommitResult : Type 0 where
  committed lost_unapplied lost_applied : CommitResult

-- The calls on the blob store.
pub data StoreCall : Type 0 where
  exists get put delete : StoreCall

-- What one call meets: the time, and which of its parts fail (`true` for a failure).
pub record Env : Type 0 where
  pub now : ℕ
  pub sql_fails : Statement → Bool
  pub commit_result : CommitResult
  pub read_fails : Bool
  pub remove_fails : Bool
  pub store_fails : StoreCall → Bool
