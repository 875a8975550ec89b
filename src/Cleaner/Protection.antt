-- ===== src/Cleaner/Protection.antt =====
-- What a pass of the cleaner never takes: a blob whose content is referenced, or queued, or young
-- (crates/smartfs-fuse/src/cleaner.rs and crates/smartfs-db/src/blobs.rs).
use smartfs.Base.{
  ℕ, zero, suc, ◌+◌, ◌≡◌, Bool, true, not, ◌||◌, ◌&&◌, Bool-cases, some, inl, inr, List, [], ◌∷◌,
  Bytes, nat_eq, bytes_eq, ltb, length, Map, Distinct, map, take, lookup, lookup-remove, arith,
}
use smartfs.Schema.Error.{Result-cases}
use smartfs.Store.Queue.{list}
use smartfs.Db.Models.{Blob, FileVersion}
use smartfs.Db.Blobs.{
  hash_referenced, unreferenced, insert_by_age, sort_by_age, list_unreferenced_blobs,
  delete_blob_if_unreferenced,
}
use smartfs.Db.Replay.{World}
use smartfs.Cleaner.{
  CleanReport, Turn, contains, protected_hashes, delete_candidate, clean_candidate,
  clean_candidates, clean_scanned, clean_once,
}

-- The row of a blob and its bytes are there.
pub record Holds (id : ℕ) (b : Blob) (bytes : Bytes) (w : World) : Type 0 where
  pub row : lookup id w.db.blobs ≡ some b
  pub file : lookup id w.blobs ≡ some bytes

-- A version has the blob's content.
abbrev pub IsReferenced : Blob → World → Type 0
IsReferenced b w = hash_referenced b.content_hash w.db.versions ≡ true

module _ (id : ℕ) (b : Blob) (bytes : Bytes) where
  candidate-IsReferenced :
      (turn : Turn) (protected : List Bytes) (c : ℕ × Bytes) (w : World) (r : CleanReport)
      → Holds id b bytes w
      → IsReferenced b w
      → let q = (clean_candidate turn protected c w r).0 in Holds id b bytes q × IsReferenced b q
  unfolding clean_candidate delete_candidate delete_blob_if_unreferenced
  candidate-IsReferenced turn protected (cid, hash) w r h ref = (
    record {
      row = grind (arith, lookup-remove, h.row, h.file, ref);
      file = grind (arith, lookup-remove, h.row, h.file, ref);
    },
    grind (arith, ref),
  )

  -- A candidate for the blob itself is protected.
  abbrev Guarded : List Bytes → ℕ × Bytes → Type 0
  Guarded protected c = c.0 ≡ id → contains c.1 protected ≡ true

  candidate-Guarded :
      (turn : Turn) (protected : List Bytes) (c : ℕ × Bytes) (w : World) (r : CleanReport)
      → Holds id b bytes w
      → Guarded protected c
      → Holds id b bytes (clean_candidate turn protected c w r).0
  unfolding clean_candidate delete_candidate delete_blob_if_unreferenced
  candidate-Guarded turn protected (cid, hash) w r h guard = record {
    row = grind (arith, lookup-remove, h.row, h.file, guard);
    file = grind (arith, lookup-remove, h.row, h.file, guard);
  }

  -- Others leave the blob alone, and its content referenced.
  abbrev pub KeepsReferenced : Turn → Type 0
  KeepsReferenced turn =
      (w : World)
      → Holds id b bytes w × IsReferenced b w
      → Holds id b bytes (turn.others w) × IsReferenced b (turn.others w)

  candidates-IsReferenced :
      (turns : ℕ → Turn) (protected : List Bytes) (cs : List (ℕ × Bytes)) (w : World)
      (r : CleanReport)
      → ((k : ℕ) → KeepsReferenced (turns k))
      → Holds id b bytes w × IsReferenced b w
      → let q = (clean_candidates turns protected cs w r).0 in Holds id b bytes q × IsReferenced b q
  unfolding clean_candidates
  candidates-IsReferenced turns protected [] w r keeps h = h
  candidates-IsReferenced turns protected (c ∷ cs) w r keeps h =
      let turn = turns (length cs) in
      let (held, ref) = keeps (length cs) w h in
      let step = clean_candidate turn protected c (turn.others w) r in
      let kept = candidate-IsReferenced turn protected c (turn.others w) r held ref in
      elim (Result-cases step.1) [
        | inl (x, f) ↦ rw (clean_candidates, f) kept
        | inr (r', f) ↦
            rw (clean_candidates, f)
              (candidates-IsReferenced turns protected cs step.0 r' keeps kept)
      ]

  abbrev pub Keeps : Turn → Type 0
  Keeps turn = (w : World) → Holds id b bytes w → Holds id b bytes (turn.others w)

  abbrev AllGuarded : List Bytes → List (ℕ × Bytes) → Type 0
  AllGuarded protected [] = Unit
  AllGuarded protected (c ∷ cs) = Guarded protected c × AllGuarded protected cs

  candidates-AllGuarded :
      (turns : ℕ → Turn) (protected : List Bytes) (cs : List (ℕ × Bytes)) (w : World)
      (r : CleanReport)
      → ((k : ℕ) → Keeps (turns k))
      → AllGuarded protected cs
      → Holds id b bytes w
      → Holds id b bytes (clean_candidates turns protected cs w r).0
  unfolding clean_candidates
  candidates-AllGuarded turns protected [] w r keeps g h = h
  candidates-AllGuarded turns protected (c ∷ cs) w r keeps g h =
      let turn = turns (length cs) in
      let step = clean_candidate turn protected c (turn.others w) r in
      let kept = candidate-Guarded turn protected c (turn.others w) r (keeps (length cs) w h) g.0 in
      elim (Result-cases step.1) [
        | inl (x, f) ↦ rw (clean_candidates, f) kept
        | inr (r', f) ↦
            rw (clean_candidates, f)
              (candidates-AllGuarded turns protected cs step.0 r' keeps g.1 kept)
      ]

  -- A row that the scan proposes for the id is the blob's, and it is old.
  abbrev Own : ℕ → ℕ → ℕ × Blob → Type 0
  Own now grace x = x.0 ≡ id → (x.1 ≡ b) × (ltb (b.created_at + grace) now ≡ true)

  abbrev AllOwn : ℕ → ℕ → List (ℕ × Blob) → Type 0
  AllOwn now grace [] = Unit
  AllOwn now grace (x ∷ l) = Own now grace x × AllOwn now grace l

  unreferenced-AllOwn :
      (now grace : ℕ) (versions : Map ℕ FileVersion) (blobs : Map ℕ Blob)
      → Distinct blobs
      → ((c : Blob) → lookup id blobs ≡ some c → c ≡ b)
      → AllOwn now grace (unreferenced now grace versions blobs)
  unfolding unreferenced lookup
  unreferenced-AllOwn now grace versions [] d own = tt
  unreferenced-AllOwn now grace versions ((j, c) ∷ rest) d own =
      let more =
        unreferenced-AllOwn now grace versions rest d.1 (λ x e. ground (arith, own x, d.0, e)) in
      elim (Bool-cases
        (ltb (c.created_at + grace) now && not (hash_referenced c.content_hash versions))) [
          | inl t ↦ rw t ((λ e. ground (arith, own c, t, e)), more)
          | inr t ↦ rw t more
        ]

  insert_by_age-AllOwn :
      (now grace : ℕ) (x : ℕ × Blob) (l : List (ℕ × Blob))
      → Own now grace x
      → AllOwn now grace l
      → AllOwn now grace (insert_by_age x l)
  unfolding insert_by_age
  insert_by_age-AllOwn now grace x [] o a = (o, tt)
  insert_by_age-AllOwn now grace x (y ∷ l) o a =
      elim (Bool-cases (ltb y.1.created_at x.1.created_at)) [
        | inl t ↦ rw t (a.0, insert_by_age-AllOwn now grace x l o a.1)
        | inr t ↦ rw t (o, a)
      ]

  sort_by_age-AllOwn :
      (now grace : ℕ) (l : List (ℕ × Blob)) → AllOwn now grace l → AllOwn now grace (sort_by_age l)
  unfolding sort_by_age
  sort_by_age-AllOwn now grace [] a = tt
  sort_by_age-AllOwn now grace (x ∷ l) a =
      insert_by_age-AllOwn now grace x (sort_by_age l) a.0 (sort_by_age-AllOwn now grace l a.1)

  -- The blob's hash is protected, or the blob is young.
  abbrev pub IsProtected : ℕ → ℕ → List Bytes → Type 0
  IsProtected now grace protected =
      (contains b.content_hash protected || not (ltb (b.created_at + grace) now)) ≡ true

  taken-AllGuarded :
      (now grace n : ℕ) (protected : List Bytes) (l : List (ℕ × Blob))
      → AllOwn now grace l
      → IsProtected now grace protected
      → AllGuarded protected (map (λ x. (x.0, x.1.content_hash)) (take n l))
  taken-AllGuarded now grace zero protected l a p = tt
  taken-AllGuarded now grace (suc n) protected [] a p = tt
  taken-AllGuarded now grace (suc n) protected (x ∷ l) a p =
      ((λ e. ground (arith, a.0 e, p)), taken-AllGuarded now grace n protected l a.1 p)

  module _ (turns : ℕ → Turn) (scan : Turn) (list_fails : Bool) (now grace_secs batch : ℕ)
      (w : World) where
    -- A failure before the loop leaves what others have left, or what was there.
    clean_once_cases :
        (P : World → Type 0)
        → P w
        → P (scan.others w)
        → P
            (clean_scanned turns scan
              (list_unreferenced_blobs now grace_secs batch (scan.others w).db)
              w).0
        → P (clean_once turns scan list_fails now grace_secs batch w).0
    unfolding clean_once
    clean_once_cases P same waited done = elim (Bool-cases list_fails) [
      | inl t ↦ rw (clean_once, t) same
      | inr t ↦ elim (Bool-cases scan.sql_fails) [
        | inl u ↦ rw (clean_once, t, u) waited
        | inr u ↦ rw (clean_once, t, u) done
      ]
    ]

    -- The content of a version is never collected: a blob whose content some version has keeps its
    -- row and its bytes through every pass, whatever fails, if the others that run meanwhile leave
    -- the blob and keep its content referenced.
    pub clean_once_spares_content :
        KeepsReferenced scan
        → ((k : ℕ) → KeepsReferenced (turns k))
        → Holds id b bytes w
        → IsReferenced b w
        → Holds id b bytes (clean_once turns scan list_fails now grace_secs batch w).0
    clean_once_spares_content waits keeps h ref =
        let start = waits w (h, ref) in
        clean_once_cases (Holds id b bytes) h start.0 (
          (candidates-IsReferenced turns (protected_hashes (list w.queue)) _ (scan.others w) _ keeps
            start).0)

    -- An acknowledged write is never collected before it is committed: a blob whose hash some
    -- queued marker's name carries at the start of a pass, or that is younger than the grace
    -- window, keeps its row and its bytes, referenced or not, whatever fails, if the others that
    -- run meanwhile leave them alone.
    pub clean_once_spares_queued :
        Distinct (scan.others w).db.blobs
        → Keeps scan
        → ((k : ℕ) → Keeps (turns k))
        → Holds id b bytes w
        → IsProtected now grace_secs (protected_hashes (list w.queue))
        → Holds id b bytes (clean_once turns scan list_fails now grace_secs batch w).0
    unfolding list_unreferenced_blobs
    clean_once_spares_queued distinct waits keeps h p =
        let start = waits w h in
        let d = (scan.others w).db in
        let own =
          unreferenced-AllOwn now grace_secs d.versions d.blobs distinct
            (λ c e. ground (arith, e, start.row)) in
        clean_once_cases (Holds id b bytes) h start (
          candidates-AllGuarded turns (protected_hashes (list w.queue)) _ (scan.others w) _ keeps
            (taken-AllGuarded now grace_secs batch (protected_hashes (list w.queue)) _
              (sort_by_age-AllOwn now grace_secs _ own) p)
            start)
