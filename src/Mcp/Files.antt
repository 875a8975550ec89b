-- ===== src/Mcp/Files.antt =====
-- The MCP server's tools on one file: `resolve_path`, `get_file_content`, `delete_file` and
-- `overwrite_file` (crates/smartfs-mcp/src/handler.rs). White space (`str::trim`), UTF-8, SHA-256 and
-- the bytes of a file outside of the store are parameters; the message of a response is left out.
pub mod Confirmed
pub mod Overwritten
pub mod Contents
use smartfs.Base.{
  ℕ, ◌+◌, ◌-◌, ◌/◌, ◌%◌, ltb, Bool, true, false, Option, none, some, List, [], ◌∷◌, Bytes, length,
  nat_eq, ◌==◌, if◌then◌else◌, Map, lookup, insert,
}
use mathlib.Core.List.{reverse}
use smartfs.Schema.Error.{SmartFsError, io, not_found, conflict, Result, ok, err, ◌>>=◌, ◌>>◌}
use smartfs.Db.Models.{Db, Inode, FileVersion, Env, get, put, select_inode}
use smartfs.Db.Inodes.{inode_lookup, inode_lookup_by_ino, inode_delete}
use smartfs.Db.Versions.{Commit}
use smartfs.Db.History.{version_get, cow_commit}
use smartfs.Mcp.Tokens.{
  TokenManager, DestructiveAction, delete_file, overwrite_file, action_name, create_token,
  consume_token,
}
use smartfs.Fuse.{or_not_found}

-- `ToolHandler`: the pool's database, the store's blobs, and the tokens.
pub record ToolHandler : Type 0 where
  pub db : Db
  pub blobs : Map ℕ Bytes
  pub tokens : TokenManager

-- `ConfirmationRequired`, and `DestructiveResult` with its path and the version's id.
pub data Answer : Type 0 where
  confirmation_required : (token : Bytes) (action : DestructiveAction) → Answer
  success : (path : Bytes) (version_id : Option ℕ) → Answer

-- `FileContentResult`: the bytes are a text, or given in hexadecimal.
pub record FileContentResult : Type 0 where
  pub version : ℕ
  pub size : ℕ
  pub content_hash : Bytes
  pub text : Option Bytes
  pub bytes_base64 : Option Bytes

abbrev pub slash : ℕ
slash = b'/'

abbrev pub is_empty : Bytes → Bool
is_empty [] = true
is_empty (c ∷ s) = false

-- `trim_matches('/')`
unfoldable pub drop_slashes : Bytes → Bytes
drop_slashes [] = []
drop_slashes (c ∷ s) = if c == slash then drop_slashes s else c ∷ s

abbrev pub trim_slashes : Bytes → Bytes
trim_slashes s = reverse (drop_slashes (reverse (drop_slashes s)))

-- `split('/')`, with the characters of the segment so far, backwards.
unfoldable pub segments : Bytes → Bytes → List Bytes
segments segment [] = reverse segment ∷ []
segments segment (c ∷ s) = elim (c == slash) [
  | true ↦ reverse segment ∷ segments [] s
  | false ↦ segments (c ∷ segment) s
]

-- The loop over the segments of a path.
unfoldable pub walk : Env → ℕ × Inode → List Bytes → Db → Result (ℕ × Inode)
walk env current [] d = ok current
walk env current (segment ∷ rest) d = elim (is_empty segment) [
  | true ↦ walk env current rest d
  | false ↦ do
    found ← inode_lookup env (some current.0) segment d
    child ← or_not_found found
    walk env child rest d
]

-- The hexadecimal digits of a byte.
abbrev pub hex_digit : ℕ → ℕ
hex_digit n = if ltb n 10 then b'0' + n else b'a' + (n - 10)

unfoldable pub hex_encode : Bytes → Bytes
hex_encode [] = []
hex_encode (b ∷ s) = hex_digit (b / 16) ∷ hex_digit (b % 16) ∷ hex_encode s

-- `BlobStore::get` of the local store: at the external path, if there is one.
abbrev pub get_bytes : (Bytes → Result Bytes) → Env → ℕ → Option Bytes → Map ℕ Bytes → Result Bytes
get_bytes read_external env blob_id (some path) blobs = read_external path
get_bytes read_external env blob_id none blobs =
    if env.store_fails get then err (io none) else or_not_found (lookup blob_id blobs)

-- `unwrap_or_default()`: the nil uuid.
abbrev pub id_or_nil : Option ℕ → ℕ
id_or_nil none = 0
id_or_nil (some id) = id

abbrev pub content_of : (Bytes → Bool) → FileVersion → Bytes → FileContentResult
content_of is_utf8 v bytes = record {
  version = v.version_number;
  size = v.size;
  content_hash = v.content_hash;
  text = if is_utf8 bytes then some bytes else none;
  bytes_base64 = if is_utf8 bytes then none else some (hex_encode bytes);
}

abbrev pub with_tokens : TokenManager → ToolHandler → ToolHandler
with_tokens tokens h = record h { tokens = tokens }

-- The first call of a tool: the confirmation that it asks for.
abbrev pub ask : ℕ → Bytes → DestructiveAction → ToolHandler → ToolHandler × Result Answer
ask now new_token action h = (
  with_tokens (create_token now new_token action h.tokens).0 h,
  ok (confirmation_required (create_token now new_token action h.tokens).1 action),
)

abbrev pub deleted_file : Bytes → ToolHandler → Result Db → ToolHandler × Result Answer
deleted_file path h (err e) = (h, err e)
deleted_file path h (ok d) = (record h { db = d }, ok (success path none))

abbrev pub overwritten : Bytes → ToolHandler → Db × Result ℕ → ToolHandler × Result Answer
overwritten path h (d, err e) = (record h { db = d }, err e)
overwritten path h (d, ok version_id) = (record h { db = d }, ok (success path (some version_id)))

-- The content that was confirmed.
abbrev pub content_to_write : DestructiveAction → Bytes → Bytes
content_to_write (overwrite_file path confirmed) content = confirmed
content_to_write (delete_file path) content = content

module _ (hash : Bytes → Bytes) where
  -- The arguments of the commit; `cow_commit` gives the version an id of its own.
  abbrev pub overwrite_commit : ℕ → ℕ → Bytes → Commit
  overwrite_commit inode_id blob_id bytes = record {
    version_id = 0;
    inode_id = inode_id;
    blob_id = some blob_id;
    content_hash = hash bytes;
    size = length bytes;
    compressed_size = none;
    external_path = none;
    special_type = none;
    special_data = none;
    ast_nodes = [];
  }

  -- The content is stored as it is, and a version is committed.
  abbrev pub write_content :
      Env → ℕ → ℕ → Bytes → Bytes → ToolHandler → Result (ℕ × Inode) → ToolHandler × Result Answer
  write_content env blob_id version_id path bytes h (err e) = (h, err e)
  write_content env blob_id version_id path bytes h (ok row) =
      if env.store_fails put
      then (h, err (io none))
      else overwritten path (record h { blobs = insert blob_id bytes h.blobs })
          (cow_commit env version_id (overwrite_commit row.0 blob_id bytes) h.db)

module _ (trim : Bytes → Bytes) where
  unfoldable pub resolve_path : Env → Bytes → Db → Result (ℕ × Inode)
  resolve_path env path d = do
    found ← inode_lookup_by_ino env 1 d
    root ← or_not_found found
    let clean = trim_slashes (trim path)
    if is_empty clean then ok root else walk env root (segments [] clean) d

  unfoldable pub get_file_content :
      (Bytes → Bool)
      → (Bytes → Result Bytes)
      → Env
      → Bytes
      → Option ℕ
      → ToolHandler
      → Result FileContentResult
  get_file_content is_utf8 read_external env path version h = do
    inode ← resolve_path env path h.db
    found ← version_get (env.sql_fails select_inode) inode.0 version h.db
    row ← or_not_found found
    bytes ← get_bytes read_external env (id_or_nil row.1.blob_id) row.1.external_path h.blobs
    ok (content_of is_utf8 row.1 bytes)

  abbrev pub delete_resolved : Env → Bytes → ToolHandler → ToolHandler × Result Answer
  delete_resolved env path h =
      deleted_file path h (do row ← resolve_path env path h.db; inode_delete env row.0 h.db)

  abbrev pub delete_confirmed :
      Env
      → Bytes
      → ToolHandler
      → TokenManager × Option DestructiveAction
      → ToolHandler × Result Answer
  delete_confirmed env path h (tokens, none) = (with_tokens tokens h, err conflict)
  delete_confirmed env path h (tokens, some action) =
      delete_resolved env path (with_tokens tokens h)

  -- `now` is the clock, and `new_token` what `Uuid::new_v4` makes.
  unfoldable pub delete_file_tool :
      Env → ℕ → Bytes → Bytes → Option Bytes → ToolHandler → ToolHandler × Result Answer
  delete_file_tool env now new_token path none h = ask now new_token (delete_file path) h
  delete_file_tool env now new_token path (some token) h =
      delete_confirmed env path h
        (consume_token now token (action_name (delete_file path)) path h.tokens)

module _ (trim hash : Bytes → Bytes) where
  abbrev pub overwrite_confirmed :
      Env
      → ℕ
      → ℕ
      → Bytes
      → Bytes
      → ToolHandler
      → TokenManager × Option DestructiveAction
      → ToolHandler × Result Answer
  overwrite_confirmed env blob_id version_id path content h (tokens, none) =
      (with_tokens tokens h, err conflict)
  overwrite_confirmed env blob_id version_id path content h (tokens, some action) =
      write_content hash env blob_id version_id path (content_to_write action content)
        (with_tokens tokens h) (resolve_path trim env path h.db)

  -- `blob_id` and `version_id` are fresh.
  unfoldable pub overwrite_file_tool :
      Env
      → ℕ
      → Bytes
      → ℕ
      → ℕ
      → Bytes
      → Bytes
      → Option Bytes
      → ToolHandler
      → ToolHandler × Result Answer
  overwrite_file_tool env now new_token blob_id version_id path content none h =
      ask now new_token (overwrite_file path content) h
  overwrite_file_tool env now new_token blob_id version_id path content (some token) h =
      overwrite_confirmed env blob_id version_id path content h
        (consume_token now token (action_name (overwrite_file path content)) path h.tokens)
