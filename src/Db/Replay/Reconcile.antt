-- ===== src/Db/Replay/Reconcile.antt =====
-- What becomes of the bytes of a provisional blob (crates/smartfs-db/src/replay.rs).
use smartfs.Base.{
  true, ℕ, ◌≡◌, ◌≢◌, false, none, some, Option-cases, ◌⊎◌, inl, inr, Bytes, nat_eq, Map, lookup,
  lookup-insert, lookup-remove, arith,
}
use smartfs.Db.Models.{BlobInsertResult, StoreCall, exists, get, put, delete, Env}
use smartfs.Db.Replay.{heal, reconcile_provisional_blob}

-- The blobs after a reconciliation. Every blob but these two is as it was; a canonical one that was
-- there is as it was; one that was missing is still missing or has the provisional bytes; and the
-- provisional bytes are in one of the two places, unless the canonical one held bytes already.
pub record IsReconciled (provisional canonical : ℕ) (before after : Map ℕ Bytes) : Type 0 where
  pub others : (k : ℕ) → k ≢ provisional → k ≢ canonical → lookup k after ≡ lookup k before
  pub canonical_kept :
      (b : Bytes)
      → provisional ≢ canonical
      → lookup canonical before ≡ some b
      → lookup canonical after ≡ some b
  pub healed :
      (c : Bytes)
      → lookup canonical before ≡ none
      → lookup canonical after ≡ some c
      → lookup provisional before ≡ some c
  pub bytes_kept :
      (b : Bytes)
      → lookup provisional before ≡ some b
      → provisional ≢ canonical
      → lookup canonical before ≡ none
      → (lookup provisional after ≡ some b) ⊎ (lookup canonical after ≡ some b)
  pub own_kept : provisional ≡ canonical → lookup provisional after ≡ lookup provisional before

-- Whatever fails on the way, a reconciliation loses no bytes: the canonical blob keeps the bytes that it
-- had; if it had none, it gets no bytes but those of the provisional blob, and these are still at one
-- of the two ids; a blob that is its own canonical one is untouched, as is every other blob.
pub reconcile_provisional_blob-IsReconciled :
    (env : Env) (provisional canonical : ℕ) (dedup : BlobInsertResult) (blobs : Map ℕ Bytes)
    → IsReconciled provisional canonical blobs
        (reconcile_provisional_blob env provisional canonical dedup blobs)
unfolding reconcile_provisional_blob heal
reconcile_provisional_blob-IsReconciled env provisional canonical dedup blobs = record {
  others = λ k p q. grind (arith, lookup-insert, lookup-remove);
  canonical_kept = λ b p q. grind (arith, lookup-insert, lookup-remove);
  healed = λ c p q. grind (arith, lookup-insert, lookup-remove, p, q);
  bytes_kept = λ b q ne p. elim (Option-cases (lookup canonical after)) [
    | inl e ↦ inl (grind (arith, lookup-insert, lookup-remove))
    | inr (c, e) ↦ inr (grind (arith, lookup-insert, lookup-remove))
  ];
  own_kept = λ p. grind (arith, lookup-insert, lookup-remove, p);
}
  where
    after : Map ℕ Bytes
    after = reconcile_provisional_blob env provisional canonical dedup blobs

-- A duplicate whose canonical bytes are missing heals them: with a store that answers, the provisional
-- bytes become the canonical blob, and the provisional blob is gone.
pub reconcile_provisional_blob_heals :
    (env : Env) (provisional canonical : ℕ) (dedup : BlobInsertResult) (blobs : Map ℕ Bytes)
    (b : Bytes)
    → ((call : StoreCall) → env.store_fails call ≡ false)
    → dedup.inserted ≡ false
    → provisional ≢ canonical
    → lookup provisional blobs ≡ some b
    → lookup canonical blobs ≡ none
    → let after = reconcile_provisional_blob env provisional canonical dedup blobs in
      (lookup canonical after ≡ some b) × (lookup provisional after ≡ none)
unfolding reconcile_provisional_blob heal
reconcile_provisional_blob_heals env provisional canonical dedup blobs b up hit ne p q =
    grind (arith, up exists, up get, up put, up delete, lookup-insert, lookup-remove)

-- With a store that answers, the canonical blob of content whose provisional bytes are there can be
-- read after the reconciliation.
pub canonical_readable :
    (env : Env) (provisional canonical : ℕ) (dedup : BlobInsertResult) (blobs : Map ℕ Bytes)
    (b : Bytes)
    → ((call : StoreCall) → env.store_fails call ≡ false)
    → (dedup.inserted ≡ true → canonical ≡ provisional)
    → lookup provisional blobs ≡ some b
    → (c : Bytes) × (lookup canonical
          (reconcile_provisional_blob env provisional canonical dedup blobs)
        ≡ some c)
unfolding reconcile_provisional_blob heal
canonical_readable env provisional canonical dedup blobs b up own p =
    elim (Option-cases
      (lookup canonical (reconcile_provisional_blob env provisional canonical dedup blobs))) [
        | inl e ↦ absurd (
            grind (
              arith,
              up exists,
              up get,
              up put,
              up delete,
              lookup-insert,
              lookup-remove,
              p,
              own,
              e,
            ))
        | inr found ↦ found
      ]
