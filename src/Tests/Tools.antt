-- ===== src/Tests/Tools.antt =====
-- The MCP server's tools on a file at concrete inputs (crates/smartfs-mcp/src/handler.rs).
use smartfs.Base.{
  ◌≡◌, ◌⊎◌, refl, none, some, [], ◌∷◌, Bytes, lookup, insert, remove, retain, nat_eq, bytes_eq,
  bytes_beq, Distinct,
}
use smartfs.Schema.Error.{SmartFsError, Result, ok, err}
use smartfs.Db.Inodes.{
  inode_lookup, inode_lookup_by_ino, find_ino, find_entry, is_entry, inode_delete,
}
use smartfs.Db.Inodes.Rows.{find_row}
use smartfs.Db.Versions.{
  cow_commit_with_id, cow_commit_tx, max_version, latest_version, version_numbered, write_version,
  update_pointer, blob_or_empty_or_virtual, insert_nodes,
}
use smartfs.Db.History.{cow_commit}
use smartfs.Mcp.Tokens.{
  TokenManager, delete_file, overwrite_file, create_token, consume_token, cleanup_expired,
}
use smartfs.Mcp.Files.{
  ToolHandler, Answer, success, resolve_path, walk, segments, drop_slashes, delete_file_tool,
  overwrite_file_tool,
}
use smartfs.Mcp.Files.Confirmed.{Deleted, delete_file_tool_confirmed}
use smartfs.Mcp.Files.Contents.{Overwrote, overwrite_file_tool_confirmed}
use smartfs.Tests.Commits.{up}
use smartfs.Tests.Inodes.{rows, tables}

abbrev same : Bytes → Bytes
same s = s

-- `/d/f`
abbrev place : Bytes
place = b'/' ∷ b'd' ∷ b'/' ∷ b'f' ∷ []

abbrev ticket : Bytes
ticket = b't' ∷ []

abbrev no_tokens : TokenManager
no_tokens = record { tokens = []; ttl = 300 }

-- The deletion of `/d/f` is to be confirmed.
abbrev to_delete : ToolHandler
to_delete = record {
  db = tables rows;
  blobs = [];
  tokens = (create_token 1000 ticket (delete_file place) no_tokens).0;
}

abbrev after_delete : ToolHandler × Result Answer
after_delete = delete_file_tool same up 1200 [] place (some ticket) to_delete

to_delete-Distinct : Distinct to_delete.tokens.tokens
unfolding create_token cleanup_expired retain insert remove lookup
to_delete-Distinct = (refl, tt)

delete_file_tool_confirmed_example :
    ((after_delete.1 ≡ ok (success place none))
      × Deleted same up 1200 place ticket to_delete after_delete.0)
    ⊎ ((e : SmartFsError) × (after_delete.1 ≡ err e)
        × (after_delete.0.db ≡ tables rows)
        × (after_delete.0.blobs ≡ []))
delete_file_tool_confirmed_example =
    delete_file_tool_confirmed same up 1200 [] place ticket to_delete after_delete.0 after_delete.1
      to_delete-Distinct refl

-- The confirmed deletion is the first of the two.
file_deleted : after_delete.1 ≡ ok (success place none)
unfolding delete_file_tool create_token consume_token cleanup_expired retain insert remove lookup
    bytes_beq resolve_path walk segments drop_slashes inode_lookup inode_lookup_by_ino find_ino
    find_entry is_entry find_row inode_delete
file_deleted = refl

-- `/d/f` is to be overwritten by a byte.
abbrev to_overwrite : ToolHandler
to_overwrite = record {
  db = tables rows;
  blobs = [];
  tokens = (create_token 1000 ticket (overwrite_file place (7 ∷ [])) no_tokens).0;
}

abbrev after_overwrite : ToolHandler × Result Answer
after_overwrite = overwrite_file_tool same same up 1200 [] 90 91 place [] (some ticket) to_overwrite

to_overwrite-Distinct : Distinct to_overwrite.tokens.tokens
unfolding create_token cleanup_expired retain insert remove lookup
to_overwrite-Distinct = (refl, tt)

rows-Distinct : Distinct rows
unfolding lookup
rows-Distinct = (refl, (refl, (refl, (refl, tt))))

overwrite_done :
    overwrite_file_tool same same up 1200 [] 90 91 place [] (some ticket) to_overwrite
    ≡ (after_overwrite.0, ok (success place (some 91)))
unfolding overwrite_file_tool create_token consume_token cleanup_expired retain insert remove lookup
    bytes_beq resolve_path walk segments drop_slashes inode_lookup inode_lookup_by_ino find_ino
    find_entry is_entry find_row cow_commit cow_commit_with_id cow_commit_tx max_version
    latest_version version_numbered write_version update_pointer blob_or_empty_or_virtual
    insert_nodes
overwrite_done = refl

overwrite_file_tool_confirmed_example :
    Overwrote same same up 1200 90 91 place ticket to_overwrite after_overwrite.0
      (success place (some 91))
unfolding lookup
overwrite_file_tool_confirmed_example =
    overwrite_file_tool_confirmed same same up 1200 [] 90 91 place [] ticket to_overwrite
      after_overwrite.0 (success place (some 91)) to_overwrite-Distinct rows-Distinct refl
      overwrite_done
