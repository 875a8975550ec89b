-- ===== src/Db/History.antt =====
-- Reading versions (crates/smartfs-db/src/versions.rs, `version_get` and `version_get_by_id`), and
-- `cow_commit`, whose version has an id of its own. A row is its id with its columns.
pub mod Reading
use smartfs.Base.{ℕ, Bool, Option, none, some, nat_eq, Map, lookup, if◌then◌else◌}
use smartfs.Schema.Error.{Result, ok, err, db}
use smartfs.Db.Models.{Db, FileVersion, Env}
use smartfs.Db.Versions.{
  Commit, CowCommitOutcome, cow_commit_with_id, latest_version, version_numbered,
}

abbrev pub row_at : Option ℕ → Map ℕ FileVersion → Option (ℕ × FileVersion)
row_at none versions = none
row_at (some id) versions = elim (lookup id versions) [ none ↦ none | some v ↦ some (id, v) ]

-- The version with a number, or the latest one.
unfoldable pub version_get : Bool → ℕ → Option ℕ → Db → Result (Option (ℕ × FileVersion))
version_get sql_fails inode_id number d =
    if sql_fails
    then err db
    else ok (elim number [
      | some n ↦ row_at (version_numbered inode_id n d.versions) d.versions
      | none ↦ row_at (latest_version inode_id d.versions) d.versions
    ])

unfoldable pub version_get_by_id : Bool → ℕ → Db → Result (Option (ℕ × FileVersion))
version_get_by_id sql_fails id d = if sql_fails then err db else ok (row_at (some id) d.versions)

abbrev pub version_id_of : Db × Result CowCommitOutcome → Db × Result ℕ
version_id_of (d, ok o) = (d, ok o.version_id)
version_id_of (d, err e) = (d, err e)

-- `new_id` is what `Uuid::new_v4` makes.
unfoldable pub cow_commit : Env → ℕ → Commit → Db → Db × Result ℕ
cow_commit env new_id c d =
    version_id_of (cow_commit_with_id env (record c { version_id = new_id }) d)
