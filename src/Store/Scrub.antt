-- ===== src/Store/Scrub.antt =====
-- The checksum scrub of stored blobs (crates/smartfs-store/src/scrub.rs). What reading a file of the
-- store gives, the listing of its directory and the injected decoder are parameters; the pause between
-- blobs and the paths in the findings, which follow from the ids, are left out.
pub mod Verdicts
use smartfs.Base.{
  ℕ, ◌+◌, Bool, true, false, not, ◌&&◌, Option, none, some, List, [], ◌∷◌, ◌++◌, Bytes, length,
  take, min, nat_eq, bytes_eq, ◌==◌, if◌then◌else◌,
}
use smartfs.Schema.Error.{SmartFsError, Result, ok, err, ◌>>=◌}

-- The decoder's answer: the digest of the plain text, or its error.
pub data Decoded : Type 0 where
  digest_of undecodable_as : Bytes → Decoded

pub data ScrubActual : Type 0 where
  digest undecodable : Bytes → ScrubActual
  missing : ScrubActual

pub record ScrubFinding : Type 0 where
  pub blob_id : ℕ
  pub expected : Bytes
  pub actual : ScrubActual

pub record ScrubReport : Type 0 where
  pub checked : ℕ
  pub intact : ℕ
  pub findings : List ScrubFinding
  pub unreferenced : ℕ

abbrev pub empty_report : ScrubReport
empty_report = record { checked = 0; intact = 0; findings = []; unreferenced = 0 }

abbrev pub is_clean : ScrubReport → Bool
is_clean r = elim r.findings [ [] ↦ true | ◌∷◌ f rest ↦ false ]

pub data ScrubScope : Type 0 where
  full : ScrubScope
  sample : ℕ → ScrubScope

-- An entry of the store's directory: whether it is one itself, and the id that its name is, if any.
pub record DirectoryEntry : Type 0 where
  pub is_dir : Bool
  pub uuid : Option ℕ

abbrev pub scope_size : ScrubScope → ℕ → ℕ
scope_size full n = n
scope_size (sample k) n = min k n

abbrev pub with_finding : ℕ → Bytes → ScrubActual → ScrubReport → ScrubReport
with_finding blob_id expected actual r = record r {
  findings =
      r.findings ++ (record { blob_id = blob_id; expected = expected; actual = actual } ∷ []);
}

-- A blob whose bytes were read.
unfoldable pub verify : ℕ → Bytes → Decoded → ScrubReport → ScrubReport
verify blob_id expected (digest_of actual) r =
    let counted = record r { checked = r.checked + 1 } in
    if actual == expected
    then record counted { intact = r.intact + 1 }
    else with_finding blob_id expected (digest actual) counted
verify blob_id expected (undecodable_as e) r =
    with_finding blob_id expected (undecodable e) (record r { checked = r.checked + 1 })

unfoldable pub is_expected : ℕ → List (ℕ × Bytes) → Bool
is_expected id [] = false
is_expected id ((k, hash) ∷ rest) = if id == k then true else is_expected id rest

-- Whether an entry is the file of a blob that nothing expects.
abbrev pub is_orphan : List (ℕ × Bytes) → DirectoryEntry → Bool
is_orphan expectations e = elim e.uuid [
  | none ↦ false
  | some id ↦ not e.is_dir && not (is_expected id expectations)
]

unfoldable pub count_orphans : List (ℕ × Bytes) → List DirectoryEntry → ℕ
count_orphans expectations [] = 0
count_orphans expectations (e ∷ rest) =
    (if is_orphan expectations e then 1 else 0) + count_orphans expectations rest

-- A store that has no directory yet has no files.
abbrev pub count_unreferenced : List (ℕ × Bytes) → Option (List DirectoryEntry) → ℕ
count_unreferenced expectations none = 0
count_unreferenced expectations (some entries) = count_orphans expectations entries

module _ (read : ℕ → Result (Option Bytes)) (decode : Bytes → Decoded) where
  unfoldable pub scrub_blob : ℕ → Bytes → ScrubReport → Result ScrubReport
  unfolding verify
  scrub_blob blob_id expected r = do
    bytes ← read blob_id
    ok (elim bytes [
      | none ↦ with_finding blob_id expected missing r
      | some b ↦ verify blob_id expected (decode b) r
    ])

  unfoldable pub scrub_blobs : List (ℕ × Bytes) → ScrubReport → Result ScrubReport
  scrub_blobs [] r = ok r
  scrub_blobs ((blob_id, expected) ∷ rest) r = do
    r' ← scrub_blob blob_id expected r
    scrub_blobs rest r'

  unfoldable pub scrub_once :
      Result (Option (List DirectoryEntry)) → List (ℕ × Bytes) → ScrubScope → Result ScrubReport
  scrub_once listing expectations scope = do
    r ← scrub_blobs (take (scope_size scope (length expectations)) expectations) empty_report
    entries ← listing
    ok (record r { unreferenced = count_unreferenced expectations entries })
