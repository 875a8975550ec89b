-- ===== src/Db/Versions/Numbers.antt =====
-- What a version commit changes, and the numbers that versions get
-- (crates/smartfs-db/src/versions.rs).
use smartfs.Base.{
  ℕ, ◌+◌, ◌≤◌, ◌<◌, ◌≡◌, refl, true, false, Bool-cases, none, some, Option-cases, ◌⊎◌, inl, inr, [],
  ◌∷◌, nat_eq, lookup, insert, Map, Distinct, ◌==◌, ◌&&◌, lookup-insert, arith,
}
use smartfs.Schema.Error.{ok}
use smartfs.Db.Models.{Db, Inode, FileVersion, Env}
use smartfs.Db.Versions.{
  Commit, CowCommitOutcome, cow_commit_tx, write_version, update_pointer, max_version,
  latest_version, new_version, pointed, version_numbered,
}

-- A commit that inserts a version: what was there before, and all that is different after it.
pub record Inserted (env : Env) (c : Commit) (d : Db) (o : CowCommitOutcome) (d' : Db)
    : Type 0 where
  pub inode : Inode
  pub present : lookup c.inode_id d.inodes ≡ some inode
  pub fresh : lookup c.version_id d.versions ≡ none
  pub number : o.version_number ≡ max_version c.inode_id d.versions + 1
  pub versions :
      d'.versions
      ≡ insert c.version_id
          (new_version c o.version_number (latest_version c.inode_id d.versions))
          d.versions
  pub inodes : d'.inodes ≡ insert c.inode_id (pointed env c inode) d.inodes
  pub blobs : d'.blobs ≡ d.blobs

-- The version is in the table.
abbrev pub IsPresent : ℕ → Db → Type 0
IsPresent id d = (v : FileVersion) × (lookup id d.versions ≡ some v)

-- The two ways for a transaction to succeed.
abbrev pub Effect : Env → Commit → Db → CowCommitOutcome → Db → Type 0
Effect env c d o d' =
    (o.version_id ≡ c.version_id)
    × (o.inserted ≡ true → Inserted env c d o d')
    × (o.inserted ≡ false
        → (d' ≡ d) × ((lookup c.inode_id d.inodes ≡ none) ⊎ IsPresent c.version_id d))

write_version-Effect :
    (env : Env) (c : Commit) (inode : Inode) (d d' : Db) (o : CowCommitOutcome)
    → lookup c.inode_id d.inodes ≡ some inode
    → write_version env c inode
        (max_version c.inode_id d.versions + 1)
        (latest_version c.inode_id d.versions)
        d
      ≡ ok (o, d')
    → Effect env c d o d'
unfolding write_version update_pointer
write_version-Effect env c inode d d' o p e = elim (Option-cases (lookup c.version_id d.versions)) [
  | inl q ↦ (
    ground arith,
    (λ h. record {
      inode = inode;
      present = p;
      fresh = q;
      number = ground arith;
      versions = ground arith;
      inodes = ground arith;
      blobs = ground arith;
    }),
    λ h. ground arith,
  )
  | inr (v, q) ↦ (ground arith, (λ h. ground arith), λ h. (ground arith, inr (v, q)))
]

-- A version commit that succeeds either inserts the version that it was asked for, numbered one
-- above all versions of the inode and with the latest as its parent, points the inode to it and
-- leaves the blobs alone; or it inserts nothing and changes nothing, and then the inode is gone or
-- the version was there.
pub cow_commit_tx-Effect :
    (env : Env) (c : Commit) (d d' : Db) (o : CowCommitOutcome)
    → cow_commit_tx env c d ≡ ok (o, d')
    → Effect env c d o d'
unfolding cow_commit_tx
cow_commit_tx-Effect env c d d' o e = elim (Option-cases (lookup c.inode_id d.inodes)) [
  | inl q ↦ (ground arith, (λ h. ground arith), λ h. (ground arith, inl q))
  | inr (inode, q) ↦ write_version-Effect env c inode d d' o q (ground arith)
]

-- No two versions of an inode have one number.
pub record HasDistinctNumbers (versions : Map ℕ FileVersion) : Type 0 where
  pub same :
      (a b : ℕ) (v w : FileVersion)
      → lookup a versions ≡ some v
      → lookup b versions ≡ some w
      → v.inode_id ≡ w.inode_id
      → v.version_number ≡ w.version_number
      → a ≡ b

pub version_number-le-max_version :
    (i : ℕ) (versions : Map ℕ FileVersion) (id : ℕ) (v : FileVersion)
    → lookup id versions ≡ some v
    → v.inode_id ≡ i
    → v.version_number ≤ max_version i versions
unfolding max_version lookup
version_number-le-max_version i [] id v e h = cc
version_number-le-max_version i ((j, w) ∷ rest) id v e h =
    ground (arith, version_number-le-max_version i rest id v)

insert-HasDistinctNumbers :
    (versions : Map ℕ FileVersion) (id : ℕ) (new : FileVersion)
    → HasDistinctNumbers versions
    → max_version new.inode_id versions < new.version_number
    → HasDistinctNumbers (insert id new versions)
insert-HasDistinctNumbers versions id new h above = record {
  same = λ a b v w p q i n. ground (
    arith,
    lookup-insert id a new versions,
    lookup-insert id b new versions,
    h.same a b v w,
    version_number-le-max_version new.inode_id versions a v,
    version_number-le-max_version new.inode_id versions b w,
  );
}

-- A version commit that succeeds keeps the numbers of each inode's versions distinct.
pub cow_commit_tx-HasDistinctNumbers :
    (env : Env) (c : Commit) (d d' : Db) (o : CowCommitOutcome)
    → HasDistinctNumbers d.versions
    → cow_commit_tx env c d ≡ ok (o, d')
    → HasDistinctNumbers d'.versions
cow_commit_tx-HasDistinctNumbers env c d d' o h e =
    let (id, inserted, same) = cow_commit_tx-Effect env c d d' o e in
    elim (Bool-cases o.inserted) [
      | inl t ↦
          let i = inserted t in
          rw i.versions
            (insert-HasDistinctNumbers d.versions c.version_id _ h (omega (arith, i.number)))
      | inr f ↦ rw ((same f).0) h
    ]

version_numbered-max :
    (i : ℕ) (versions : Map ℕ FileVersion) (n : ℕ)
    → n ≡ max_version i versions
    → 0 < n
    → (id : ℕ) × (version_numbered i n versions ≡ some id)
unfolding max_version version_numbered
version_numbered-max i [] n e h = absurd (omega arith)
version_numbered-max i ((j, w) ∷ rest) n e h =
    elim (Bool-cases (w.inode_id == i && w.version_number == n)) [
      | inl t ↦ (j, rw t)
      | inr f ↦ rw f (version_numbered-max i rest n (ground arith) h)
    ]

version_numbered_sound :
    (i n : ℕ) (versions : Map ℕ FileVersion) (id : ℕ)
    → Distinct versions
    → version_numbered i n versions ≡ some id
    → (v : FileVersion) × (lookup id versions ≡ some v) × (v.inode_id ≡ i) × (v.version_number ≡ n)
unfolding version_numbered lookup
version_numbered_sound i n [] id d e = cc
version_numbered_sound i n ((j, w) ∷ rest) id d e =
    elim (Bool-cases (w.inode_id == i && w.version_number == n)) [
      | inl t ↦ (w, ground arith, ground arith, ground arith)
      | inr f ↦
          let (v, p, q, r) = version_numbered_sound i n rest id d.1 (ground arith) in
          (v, ground arith, q, r)
    ]

-- The parent that a commit records: none for the first version of an inode, and otherwise the
-- version of that inode that is numbered one below the new one.
pub parent_is_predecessor :
    (env : Env) (c : Commit) (d d' : Db) (o : CowCommitOutcome)
    → Distinct d.versions
    → cow_commit_tx env c d ≡ ok (o, d')
    → o.inserted ≡ true
    → 1 < o.version_number
    → (parent : ℕ) × (p : FileVersion) × (lookup c.version_id d'.versions
        ≡ some (new_version c o.version_number (some parent)))
      × (lookup parent d.versions ≡ some p)
      × (p.inode_id ≡ c.inode_id)
      × (p.version_number + 1 ≡ o.version_number)
unfolding latest_version
parent_is_predecessor env c d d' o distinct e t above =
    let i = (cow_commit_tx-Effect env c d d' o e).1 t in
    let n = max_version c.inode_id d.versions in
    let (parent, q) =
      version_numbered-max c.inode_id d.versions n refl (omega (arith, i.number, above)) in
    let (p, found, inode, number) =
      version_numbered_sound c.inode_id n d.versions parent distinct q in
    (
      parent,
      p,
      ground (
        arith,
        i.versions,
        q,
        lookup-insert c.version_id c.version_id
            (new_version c o.version_number (latest_version c.inode_id d.versions)) d.versions,
      ),
      found,
      inode,
      omega (arith, i.number, number),
    )
