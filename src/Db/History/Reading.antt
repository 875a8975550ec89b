-- ===== src/Db/History/Reading.antt =====
-- What is read back after a commit, and that the past stays readable
-- (crates/smartfs-db/src/versions.rs).
use smartfs.Base.{
  ℕ, ◌+◌, ◌≤◌, ◌≡◌, ◌≢◌, true, false, none, some, nat_eq, Map, Bool-cases, inl, inr, [], ◌∷◌,
  lookup, insert, remove-absent, lookup-insert_self, lookup-insert, Option-cases, arith, ◌∙◌, ap,
  sym,
}
use smartfs.Schema.Error.{ok}
use smartfs.Db.Models.{Db, FileVersion, Env}
use smartfs.Db.Versions.{
  Commit, CowCommitOutcome, cow_commit_tx, max_version, latest_version, version_numbered,
  new_version,
}
use smartfs.Db.Versions.Numbers.{cow_commit_tx-Effect}
use smartfs.Db.History.{version_get, row_at}

module _ (id : ℕ) (v : FileVersion) (versions : Map ℕ FileVersion)
    (fresh : lookup id versions ≡ none) where
  latest_version-insert :
      v.version_number ≡ max_version v.inode_id versions + 1
      → latest_version v.inode_id (insert id v versions) ≡ some id
  unfolding latest_version max_version version_numbered insert
  latest_version-insert n = rw (remove-absent id versions fresh) (ground (arith, n))

  version_numbered-insert :
      (i n : ℕ)
      → (v.inode_id ≡ i → v.version_number ≢ n)
      → version_numbered i n (insert id v versions) ≡ version_numbered i n versions
  unfolding version_numbered insert
  version_numbered-insert i n other = rw (remove-absent id versions fresh) (ground (arith, other))

version_numbered-le-max_version :
    (i n id : ℕ) (versions : Map ℕ FileVersion)
    → version_numbered i n versions ≡ some id
    → n ≤ max_version i versions
unfolding version_numbered max_version
version_numbered-le-max_version i n id [] e = cc
version_numbered-le-max_version i n id ((j, w) ∷ rest) e =
    ground (arith, version_numbered-le-max_version i n id rest, e)

row_at-insert :
    (k new : ℕ) (v : FileVersion) (row : ℕ × FileVersion) (versions : Map ℕ FileVersion)
    → lookup new versions ≡ none
    → row_at (some k) versions ≡ some row
    → row_at (some k) (insert new v versions) ≡ some row
row_at-insert k new v row versions fresh e =
    grind (arith, lookup-insert new k v versions, fresh, e, nat_eq.beq_iff new k)

row_at-insert_self :
    (id : ℕ) (v : FileVersion) (versions : Map ℕ FileVersion)
    → row_at (some id) (insert id v versions) ≡ some (id, v)
row_at-insert_self id v versions = grind (arith, lookup-insert_self id v versions)

row_at-past :
    (new i n : ℕ) (v : FileVersion) (row : ℕ × FileVersion) (versions : Map ℕ FileVersion)
    → lookup new versions ≡ none
    → v.version_number ≡ max_version v.inode_id versions + 1
    → row_at (version_numbered i n versions) versions ≡ some row
    → row_at (version_numbered i n (insert new v versions)) (insert new v versions) ≡ some row
row_at-past new i n v row versions fresh number e =
    elim (Option-cases (version_numbered i n versions)) [
      | inl f ↦ absurd (ground (arith, e, f))
      | inr (k, f) ↦
          rw
            (
              version_numbered-insert new v versions fresh i n (λ same equal.
                  ground
                    (arith, same, equal, number, version_numbered-le-max_version i n k versions f)),
              f,
            )
            (row_at-insert k new v row versions fresh (ap (λ x. row_at x versions) (sym f) ∙ e))
    ]

-- What is written is read: after a commit that inserts a version, the latest version of the inode
-- is this one, under its id and with the columns of the commit.
pub version_get-cow_commit_tx :
    (env : Env) (c : Commit) (d d' : Db) (o : CowCommitOutcome)
    → cow_commit_tx env c d ≡ ok (o, d')
    → o.inserted ≡ true
    → version_get false c.inode_id none d'
      ≡ ok (
          some
            (c.version_id, new_version c o.version_number (latest_version c.inode_id d.versions)))
unfolding version_get
version_get-cow_commit_tx env c d d' o e t =
    let made = (cow_commit_tx-Effect env c d d' o e).1 t in
    let v = new_version c o.version_number (latest_version c.inode_id d.versions) in
    rw (made.versions, latest_version-insert c.version_id v d.versions made.fresh made.number)
      (ap ok (row_at-insert_self c.version_id v d.versions))

-- The past stays as it was: a version that was read by its number before a commit is read so after
-- it, for every inode and whatever the commit did.
pub version_get_unchanged :
    (env : Env) (c : Commit) (d d' : Db) (o : CowCommitOutcome) (i n id : ℕ) (w : FileVersion)
    → cow_commit_tx env c d ≡ ok (o, d')
    → version_get false i (some n) d ≡ ok (some (id, w))
    → version_get false i (some n) d' ≡ ok (some (id, w))
unfolding version_get
version_get_unchanged env c d d' o i n id w e read =
    let (same_id, inserted, unchanged) = cow_commit_tx-Effect env c d d' o e in
    elim (Bool-cases o.inserted) [
      | inl t ↦
          let made = inserted t in
          rw made.versions (
            ap ok (
              row_at-past c.version_id i n _ (id, w) d.versions made.fresh made.number
                (ground (arith, read))))
      | inr f ↦ rw ((unchanged f).0) read
    ]
