-- ===== src/Lib.antt =====
-- SmartFS: a versioned, content-addressed filesystem over PostgreSQL and a directory of blobs,
-- mounted by FUSE. This library models its callbacks, its registry of names and its write path, from
-- an open handle's buffer to the committed version, and proves what they promise to a program.
--
-- The parts of the program, and how they interact. A write goes into the buffer of an open handle
-- (crates/smartfs-fuse/src/state.rs). When the file is released, its bytes are stored as a blob
-- under a fresh id, and a pending marker is put into a queue directory by a rename
-- (crates/smartfs-schema/src/pending.rs names it, crates/smartfs-store/src/pending.rs stores it).
-- From then on the write is acknowledged: the pipeline (crates/smartfs-fuse/src/pending.rs) shows it
-- to readers from an overlay, and one drain commits the markers to the database in order
-- (crates/smartfs-db/src/replay.rs, blobs.rs and versions.rs), unlinks each, and takes its view down.
--
-- The files. Base has the names that all modules share: Boolean tests, lists over the native numbers,
-- and finite maps. Schema has the error type with its errnos (crates/smartfs-schema/src/error.rs,
-- crates/smartfs-fuse/src/error.rs) and, in Schema.Marker, `PendingMarker`, `file_name_for` and
-- `parse_file_name`. Store.Queue is `PendingQueue::list`. Db.Models has the tables' rows, Db.Blobs
-- `insert_blob_tx` and the scan for unreferenced blobs, Db.Inventory the other statements on that
-- table, Db.Versions `cow_commit_tx` and `cow_commit_with_id`, Db.History `cow_commit` and
-- `version_get`, and Db.Replay `commit_pending_marker`, `replay_pending_queue` and
-- `reconcile_provisional_blob`, each with modules for what they prove. Handles is
-- `FuseStateManager`, every method a function of the same name; Handles.Calls has them as data, for
-- histories. Pipeline has `PendingOverlay`, `Gate` and `PendingPipeline`, with `submit`, `rescan`
-- and an iteration of `drain_loop` cut into their atomic parts; Pipeline.Steps interleaves the parts
-- of any number of submissions and the rounds of any number of scans with the drain and a replay by
-- another process, and Pipeline.Scans follows one scan through the others. Cleaner
-- is `clean_once`, the collection of garbage (crates/smartfs-fuse/src/cleaner.rs), and Mcp.Tokens the
-- confirmation tokens of the MCP server (crates/smartfs-mcp/src/tokens.rs). Attributes is
-- `inode_to_file_attr`, the attributes of an inode (crates/smartfs-fuse/src/state.rs). Tests has the
-- theorems at concrete inputs.
--
-- Db.Inodes is the registry of inodes (crates/smartfs-db/src/inodes.rs): the functions by their names,
-- the unique names and numbers, the foreign key to the parent, and the cascades of a deletion. A
-- cascade is repeated as often as there are rows, since each round but the last deletes one. Its
-- children have what is true of one row (Rows), of the table as a tree (Tree, Insertions, Moves,
-- Cascade), of what is below a deleted row (Below), of the names (Names, Renames, Replacing), and of
-- histories of operations (Operations, Refinement).
--
-- Fuse is `SmartFsFuse` (crates/smartfs-fuse/src/fs.rs): `Mount` is the pipeline, the runtime state and
-- the force flag, and a callback takes a mount to a mount and a reply. Lookups has lookup, getattr,
-- readdir, readlink and statfs, Creates has create, mkdir, mknod and symlink, Removes has unlink, rmdir,
-- link and rename, Io has open, read, write, flush and release, Setattr is setattr, and Writes has what
-- release, symlink and setattr share when they queue a write. Closing is about a write that is read back
-- after the close, with Elsewhere for what other threads do meanwhile, and Unlinked about a file that is
-- unlinked while it is open. Compression and hashing are the record
-- `Codec` (that decompression undoes compression is its law), the checks of a file's syntax the record
-- `Checker`, which Fuse.Checked fills with those of Syntax.
--
-- Syntax is the validation of delimiters and the extraction of declarations
-- (crates/smartfs-fuse/src/syntax.rs), on the list of a text's characters. Syntax.Dyck says what a
-- balanced word is, Syntax.Delimiters which delimiters of a text count, and Syntax.Nodes has
-- `extract_ast_nodes`, over the functions on texts of Syntax.Text.
--
-- Mcp.Files has the tools of the MCP server that read or change one file
-- (crates/smartfs-mcp/src/handler.rs): `resolve_path`, `get_file_content`, `delete_file` and
-- `overwrite_file`, the last two as `delete_file_tool` and `overwrite_file_tool`, each with its two calls.
-- Store.Scrub is `scrub_once` (crates/smartfs-store/src/scrub.rs).
--
-- How the state corresponds. A table is a map by primary key, and a constraint is a test that the
-- statement makes; a transaction is a function from a database to a database or an error, and a
-- COMMIT may fail with its changes applied or not. A `HashMap`, a set and a directory are
-- association lists whose operations keep each key once. Whatever may fail around a call is an
-- argument (`Env`), so the theorems hold for every pattern of failures. A uuid, a time and a size
-- are numbers, and a text is its bytes. Counters wrap at 2^64, as in the program.
-- Loops are structural recursion but for the two of Syntax, which run on fuel: a round for each
-- character or line and one more, which is enough since each round but the last takes at least one.
-- `ast_of` stands for serde_json's decoding of a marker's AST nodes and is a parameter.
--
-- Not modelled: fsync and the wait for an empty queue (`quiesce`), the replies' times to live and the
-- mounting itself, the waiting of `Gate::admit` (only its attempts), callbacks that run at the same
-- time (the pipeline's own interleavings are modelled), the staging files under pending/tmp, the
-- message text of errors, logging, poisoned locks, the searches, embeddings and worker queries of
-- smartfs-db, and the crates smartfs-ai, smartfs-cli, smartfs-compress, smartfs-daemon,
-- smartfs-docgen, smartfs-ipfs and smartfs-semantic, and smartfs-mcp but for its tokens and these
-- tools.
pub mod Base
pub mod Schema
pub mod Store
pub mod Db
pub mod Handles
pub mod Pipeline
pub mod Cleaner
pub mod Mcp
pub mod Attributes
pub mod Fuse
pub mod Syntax
pub mod Tests
