-- ===== src/Store/Scrub/Verdicts.antt =====
-- That a scrub reports exactly the blobs that are not as recorded (crates/smartfs-store/src/scrub.rs).
use smartfs.Base.{
  ℕ, suc, ◌+◌, ◌≡◌, refl, sym, ap, subst, ◌∙◌, Option, none, some, List, [], ◌∷◌, ◌++◌, Bytes,
  length, length-append, take, nat_eq, bytes_eq, ◌==◌, if◌then◌else◌, arith, inl, inr, Bool-cases,
}
use mathlib.Core.List.{append_assoc, append-nil}
use smartfs.Schema.Error.{Result, ok, err, Result-cases, ◌>>=◌}
use smartfs.Store.Scrub.{
  Decoded, digest_of, undecodable_as, ScrubActual, digest, undecodable, missing, ScrubFinding,
  ScrubReport, empty_report, DirectoryEntry, ScrubScope, scope_size, verify, scrub_blob,
  scrub_blobs, scrub_once, count_unreferenced,
}

abbrev pub finding : ℕ → Bytes → ScrubActual → ScrubFinding
finding blob_id expected actual = record { blob_id = blob_id; expected = expected; actual = actual }

-- What is wrong with bytes that were read: nothing if they decode to the expected digest.
abbrev pub decoded_verdict : ℕ → Bytes → Decoded → List ScrubFinding
decoded_verdict blob_id expected (digest_of actual) =
    if actual == expected then [] else finding blob_id expected (digest actual) ∷ []
decoded_verdict blob_id expected (undecodable_as e) = finding blob_id expected (undecodable e) ∷ []

abbrev pub verdict : (Bytes → Decoded) → ℕ → Bytes → Result (Option Bytes) → List ScrubFinding
verdict decode blob_id expected (err e) = []
verdict decode blob_id expected (ok none) = finding blob_id expected missing ∷ []
verdict decode blob_id expected (ok (some bytes)) = decoded_verdict blob_id expected (decode bytes)

-- The verdicts on a list of blobs, in its order.
abbrev pub verdicts :
    (ℕ → Result (Option Bytes)) → (Bytes → Decoded) → List (ℕ × Bytes) → List ScrubFinding
verdicts read decode [] = []
verdicts read decode ((blob_id, expected) ∷ rest) =
    verdict decode blob_id expected (read blob_id) ++ verdicts read decode rest

-- The report `q` is `r` with `n` more blobs, of which `found` are wrong.
abbrev pub Adds : List ScrubFinding → ℕ → ScrubReport → ScrubReport → Type 0
Adds found n r q = (q.findings ≡ r.findings ++ found) × (q.intact + length found ≡ r.intact + n)

verify-Adds :
    (blob_id : ℕ) (expected : Bytes) (d : Decoded) (r : ScrubReport)
    → Adds (decoded_verdict blob_id expected d) 1 r (verify blob_id expected d r)
unfolding verify
verify-Adds blob_id expected (digest_of actual) r = elim (Bool-cases (actual == expected)) [
  | inl e ↦ rw (verify, e) (sym (append-nil r.findings), omega arith)
  | inr e ↦ rw (verify, e) (refl, refl)
]
verify-Adds blob_id expected (undecodable_as e) r = (refl, refl)

-- The same of a pass that may fail.
abbrev pub AddsTo : List ScrubFinding → ℕ → ScrubReport → Result ScrubReport → Type 0
AddsTo found n r (err e) = Unit
AddsTo found n r (ok q) = Adds found n r q

Adds-append :
    (f g : List ScrubFinding) (n : ℕ) (r q p : ScrubReport)
    → Adds f 1 r q
    → Adds g n q p
    → Adds (f ++ g) (suc n) r p
Adds-append f g n r q p (a, b) (c, d) =
    (c ∙ ap (λ l. l ++ g) a ∙ append_assoc r.findings f g, omega (arith, b, d, length-append f g))

AddsTo-append :
    (f g : List ScrubFinding) (n : ℕ) (r q : ScrubReport) (o : Result ScrubReport)
    → Adds f 1 r q
    → AddsTo g n q o
    → AddsTo (f ++ g) (suc n) r o
AddsTo-append f g n r q (err e) a b = tt
AddsTo-append f g n r q (ok p) a b = Adds-append f g n r q p a b

module _ (read : ℕ → Result (Option Bytes)) (decode : Bytes → Decoded) where
  scrub_blob-Adds :
      (blob_id : ℕ) (expected : Bytes) (r : ScrubReport)
      → AddsTo
          (verdict decode blob_id expected (read blob_id))
          1
          r
          (scrub_blob read decode blob_id expected r)
  unfolding scrub_blob
  scrub_blob-Adds blob_id expected r = elim (Result-cases (read blob_id)) [
    | inl (e, f) ↦ rw (verdict, scrub_blob, f) tt
    | inr (none, f) ↦ rw (verdict, scrub_blob, f) (refl, refl)
    | inr (some bytes, f) ↦
        rw (verdict, scrub_blob, f) (verify-Adds blob_id expected (decode bytes) r)
  ]

  scrub_blobs-Adds :
      (l : List (ℕ × Bytes)) (r : ScrubReport)
      → AddsTo (verdicts read decode l) (length l) r (scrub_blobs read decode l r)
  unfolding scrub_blobs
  scrub_blobs-Adds [] r = (sym (append-nil r.findings), refl)
  scrub_blobs-Adds ((blob_id, expected) ∷ rest) r =
      elim (Result-cases (scrub_blob read decode blob_id expected r)) [
        | inl (e, f) ↦ rw (scrub_blobs, f) tt
        | inr (q, f) ↦
            rw (scrub_blobs, f)
              (AddsTo-append (verdict decode blob_id expected (read blob_id))
                (verdicts read decode rest) (length rest) r q (scrub_blobs read decode rest q)
                (subst (AddsTo (verdict decode blob_id expected (read blob_id)) 1 r) f
                  (scrub_blob-Adds blob_id expected r))
                (scrub_blobs-Adds rest q))
      ]

  -- What a pass that succeeds has checked.
  abbrev pub IsExact : List (ℕ × Bytes) → ScrubReport → Type 0
  IsExact blobs r =
      (r.findings ≡ verdicts read decode blobs) × (r.intact + length r.findings ≡ length blobs)

  taken-IsExact :
      (blobs : List (ℕ × Bytes)) (r : ScrubReport)
      → AddsTo (verdicts read decode blobs) (length blobs) empty_report (ok r)
      → IsExact blobs r
  taken-IsExact blobs r (a, b) = (a, omega (arith, b, ap length a))

  pass-IsExact :
      (listing : Result (Option (List DirectoryEntry))) (expectations blobs : List (ℕ × Bytes))
      (r q : ScrubReport)
      → IsExact blobs r
      → (listing >>= λ entries.
          ok (record r { unreferenced = count_unreferenced expectations entries }))
        ≡ ok q
      → IsExact blobs q
  pass-IsExact (err e) expectations blobs r q exact h = (ground (arith, h), ground (arith, h))
  pass-IsExact (ok entries) expectations blobs r q (a, b) h =
      (ground (arith, h, a), ground (arith, h, b))

  -- A scrub that succeeds reports exactly the blobs of its sample that are missing, cannot be decoded or
  -- decode to another digest than the recorded one, in the order of the sample, each with what it is;
  -- and every blob of the sample is either counted as intact or reported.
  pub scrub_once-IsExact :
      (listing : Result (Option (List DirectoryEntry))) (expectations : List (ℕ × Bytes))
      (scope : ScrubScope) (q : ScrubReport)
      → scrub_once read decode listing expectations scope ≡ ok q
      → IsExact (take (scope_size scope (length expectations)) expectations) q
  unfolding scrub_once
  scrub_once-IsExact listing expectations scope q h =
      let blobs = take (scope_size scope (length expectations)) expectations in
      elim (Result-cases (scrub_blobs read decode blobs empty_report)) [
        | inl (e, f) ↦ (ground (arith, h, f), ground (arith, h, f))
        | inr (r, f) ↦
            pass-IsExact listing expectations blobs r q
              (taken-IsExact blobs r (
                subst (AddsTo (verdicts read decode blobs) (length blobs) empty_report) f
                  (scrub_blobs-Adds blobs empty_report)))
              (ground (arith, h, f))
      ]
