-- ===== src/Mcp/Files/Overwritten.antt =====
-- What `overwrite_file` writes, and that it is read back (crates/smartfs-mcp/src/handler.rs).
use smartfs.Base.{
  ℕ, ◌≡◌, subst, ◌∙◌, true, false, Option, none, some, List, [], ◌∷◌, Bytes, nat_eq, bytes_eq, ◌==◌,
  lookup, Distinct, arith, inl, inr, Bool-cases,
}
use smartfs.Schema.Error.{SmartFsError, Result, ok, err, Result-cases}
use smartfs.Db.Models.{Db, Inode, Env, begin}
use smartfs.Db.Versions.{
  Commit, CowCommitOutcome, cow_commit_with_id, cow_commit_tx, new_version, latest_version,
}
use smartfs.Db.Versions.Numbers.{Effect, cow_commit_tx-Effect}
use smartfs.Db.Inodes.{inode_lookup, find_entry, is_entry, inode_lookup_by_ino, find_ino}
use smartfs.Db.Inodes.Rows.{find_row_sound}
use smartfs.Mcp.Files.{walk, is_empty, resolve_path, trim_slashes, segments}
use smartfs.Db.History.{version_get, cow_commit}
use smartfs.Db.History.Reading.{version_get-cow_commit_tx}

-- A version that was committed under a new id: the latest of its inode, with the columns of the commit.
abbrev pub IsLatest : Commit → ℕ → Db → Type 0
IsLatest c id d =
    (n : ℕ) × (parent : Option ℕ) × (version_get false c.inode_id none d
      ≡ ok (some (id, new_version c n parent)))

clash {ℓ} : {A : Type ℓ} (o : Option A) (a : A) → o ≡ some a → o ≡ none → ⊥
clash o a e f = ground (arith, e, f)

module _ (env : Env) (id : ℕ) (c : Commit) (d : Db) (i : Inode)
    (fresh : lookup id d.versions ≡ none) (alive : lookup c.inode_id d.inodes ≡ some i) where
  abbrev named : Commit
  named = record c { version_id = id }

  inserts : (o : CowCommitOutcome) (x : Db) → Effect env named d o x → o.inserted ≡ true
  inserts o x (same, made, idle) = elim (Bool-cases o.inserted) [
    | inl t ↦ t
    | inr f ↦ elim ((idle f).1) [
      | inl gone ↦ elim (clash (lookup c.inode_id d.inodes) i alive gone) [ ]
      | inr (v, q) ↦ elim (clash (lookup id d.versions) v q fresh) [ ]
    ]
  ]

  committed_as :
      (o : CowCommitOutcome) (x d' : Db) (v : ℕ)
      → env.sql_fails begin ≡ false
      → cow_commit_tx env named d ≡ ok (o, x)
      → o.inserted ≡ true
      → cow_commit env id c d ≡ (d', ok v)
      → (v ≡ o.version_id) × (x ≡ d')
  unfolding cow_commit cow_commit_with_id
  committed_as o x d' v b e t run = (ground (arith, b, e, t, run), ground (arith, b, e, t, run))

  began : (d' : Db) (v : ℕ) → cow_commit env id c d ≡ (d', ok v) → env.sql_fails begin ≡ false
  unfolding cow_commit cow_commit_with_id
  began d' v run = ground (arith, run)

  no_error :
      (x : SmartFsError) (d' : Db) (v : ℕ)
      → cow_commit_tx env named d ≡ err x
      → cow_commit env id c d ≡ (d', ok v)
      → ⊥
  unfolding cow_commit cow_commit_with_id
  no_error x d' v e run = ground (arith, e, run)

  pub cow_commit-IsLatest :
      (d' : Db) (v : ℕ) → cow_commit env id c d ≡ (d', ok v) → (v ≡ id) × IsLatest c id d'
  cow_commit-IsLatest d' v run = elim (Result-cases (cow_commit_tx env named d)) [
    | inl (x, e) ↦ elim (no_error x d' v e run) [ ]
    | inr ((o, x), e) ↦
        let effect = cow_commit_tx-Effect env named d x o e in
        let t = inserts o x effect in
        let (same, there) = committed_as o x d' v (began d' v run) e t run in
        (
          same ∙ effect.0,
          (
            o.version_number,
            latest_version c.inode_id d.versions,
            subst
                (λ y.
                  version_get false c.inode_id none y
                  ≡ ok (
                      some (
                        id,
                        new_version named o.version_number (latest_version c.inode_id d.versions),
                      )))
                there (version_get-cow_commit_tx env named d x o e t),
          ),
        )
  ]

-- A path leads to a row of the table.
module _ (env : Env) (d : Db) (distinct : Distinct d.inodes) where
  abbrev pub IsRow : Result (ℕ × Inode) → Type 0
  IsRow (err e) = Unit
  IsRow (ok row) = lookup row.0 d.inodes ≡ some row.1

  child_found :
      (parent k : ℕ) (name : Bytes) (i : Inode)
      → inode_lookup env (some parent) name d ≡ ok (some (k, i))
      → lookup k d.inodes ≡ some i
  unfolding inode_lookup find_entry
  child_found parent k name i e =
      (find_row_sound (is_entry (some parent) name) d.inodes k i distinct (ground (arith, e))).0

  walk-IsRow :
      (current : ℕ × Inode) (names : List Bytes)
      → IsRow (ok current)
      → IsRow (walk env current names d)
  unfolding walk
  walk-IsRow current [] here = here
  walk-IsRow current (name ∷ names) here = elim (Bool-cases (is_empty name)) [
    | inl t ↦ rw (walk, t) (walk-IsRow current names here)
    | inr t ↦ elim (Result-cases (inode_lookup env (some current.0) name d)) [
      | inl (x, f) ↦ rw (walk, t, f) tt
      | inr (none, f) ↦ rw (walk, t, f) tt
      | inr (some (k, i), f) ↦
          rw (walk, t, f) (walk-IsRow (k, i) names (child_found current.0 k name i f))
    ]
  ]

  root_found :
      (k : ℕ) (i : Inode)
      → inode_lookup_by_ino env 1 d ≡ ok (some (k, i))
      → lookup k d.inodes ≡ some i
  unfolding inode_lookup_by_ino find_ino
  root_found k i e = (find_row_sound (λ j. j.ino == 1) d.inodes k i distinct (ground (arith, e))).0

  pub resolve_path-IsRow :
      (trim : Bytes → Bytes) (path : Bytes) → IsRow (resolve_path trim env path d)
  unfolding resolve_path
  resolve_path-IsRow trim path = elim (Result-cases (inode_lookup_by_ino env 1 d)) [
    | inl (x, f) ↦ rw (resolve_path, f) tt
    | inr (none, f) ↦ rw (resolve_path, f) tt
    | inr (some (k, i), f) ↦ elim (Bool-cases (is_empty (trim_slashes (trim path)))) [
      | inl t ↦ rw (resolve_path, f, t) (root_found k i f)
      | inr t ↦
          rw (resolve_path, f, t)
            (walk-IsRow (k, i) (segments [] (trim_slashes (trim path))) (root_found k i f))
    ]
  ]
