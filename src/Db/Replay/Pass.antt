-- ===== src/Db/Replay/Pass.antt =====
-- A pass over the whole queue (crates/smartfs-db/src/replay.rs, `replay_pending_queue`).
use smartfs.Base.{
  ℕ, ◌≡◌, ◌≢◌, refl, Bool, Bool-cases, Option, none, some, Option-cases, ◌⊎◌, inl, inr, List, [],
  ◌∷◌, Bytes, nat_eq, bytes_eq, ◌==◌, lookup, length, subst, ◌∙◌, arith,
}
use smartfs.Schema.Marker.{PendingMarker}
use smartfs.Store.Queue.{list}
use smartfs.Db.Models.{AstNodeInsert, Env}
use smartfs.Db.Versions.Numbers.{IsPresent}
use smartfs.Db.Replay.{
  World, ReplayReport, commit_pending_marker, replay_names, replay_pending_queue,
}
use smartfs.Db.Replay.Safety.{Grows, same-Grows, commit_pending_marker-IsSafe}

-- The write of a marker is still to be committed, or it is committed, or its inode is gone.
abbrev pub IsKept : Bytes → PendingMarker → World → Type 0
IsKept name m w =
    (lookup name w.queue ≡ some (some m))
    ⊎ (lookup m.inode_id w.db.inodes ≡ none)
    ⊎ IsPresent m.version_id w.db

-- What a call on some name leaves, for every other name too.
record Spares (name : Bytes) (w w' : World) : Type 0 where
  grows : Grows w.db w'.db
  others : (k : Bytes) → k ≢ name → lookup k w'.queue ≡ lookup k w.queue

Spares-IsKept :
    (name other : Bytes) (m : PendingMarker) (w w' : World)
    → name ≢ other
    → Spares other w w'
    → IsKept name m w
    → IsKept name m w'
Spares-IsKept name other m w w' ne s (inl q) = inl (s.others name ne ∙ q)
Spares-IsKept name other m w w' ne s (inr (inl g)) = inr (inl (s.grows.gone m.inode_id g))
Spares-IsKept name other m w w' ne s (inr (inr p)) = inr (inr (s.grows.versions m.version_id p))

unchanged-Spares : (name : Bytes) (w : World) → Spares name w w
unchanged-Spares name w = record { grows = same-Grows w.db w.db refl refl; others = λ k ne. refl }

module _ (ast_of : Bytes → Option (List AstNodeInsert)) (env : Env) (with_store : Bool) where
  commit_nothing :
      (name : Bytes) (w : World)
      → ((m : PendingMarker) → lookup name w.queue ≢ some (some m))
      → (commit_pending_marker ast_of env with_store name w).0 ≡ w
  unfolding commit_pending_marker
  commit_nothing name w no_marker = elim (Bool-cases env.read_fails) [
    | inl t ↦ rw (commit_pending_marker, t) refl
    | inr t ↦ elim (Option-cases (lookup name w.queue)) [
      | inl e ↦ rw (commit_pending_marker, t, e) refl
      | inr (none, e) ↦ rw (commit_pending_marker, t, e) refl
      | inr (some m, e) ↦ absurd (no_marker m e)
    ]
  ]

  commit-Spares :
      (name : Bytes) (w : World)
      → Spares name w (commit_pending_marker ast_of env with_store name w).0
  commit-Spares name w = elim (Option-cases (lookup name w.queue)) [
    | inl e ↦ rw (commit_nothing name w λ m f. cc (e, f)) (unchanged-Spares name w)
    | inr (none, e) ↦ rw (commit_nothing name w λ m f. cc (e, f)) (unchanged-Spares name w)
    | inr (some m, e) ↦
        let safe = commit_pending_marker-IsSafe ast_of env with_store name m w e in
        record { grows = safe.grows; others = safe.others }
  ]

  commit_own :
      (name : Bytes) (m : PendingMarker) (w : World)
      → IsKept name m w
      → IsKept name m (commit_pending_marker ast_of env with_store name w).0
  commit_own name m w (inl q) =
      let safe = commit_pending_marker-IsSafe ast_of env with_store name m w q in
      elim safe.kept [
        | inl still ↦ inl still
        | inr (inl gone) ↦ inr (inl (safe.grows.gone m.inode_id gone))
        | inr (inr there) ↦ inr (inr there)
      ]
  commit_own name m w (inr (inl g)) = inr (inl ((commit-Spares name w).grows.gone m.inode_id g))
  commit_own name m w (inr (inr p)) =
      inr (inr ((commit-Spares name w).grows.versions m.version_id p))

  commit-IsKept :
      (name other : Bytes) (m : PendingMarker) (w : World)
      → IsKept name m w
      → IsKept name m (commit_pending_marker ast_of env with_store other w).0
  commit-IsKept name other m w k = elim (Bool-cases (name == other)) [
    | inl t ↦
        subst (λ x. IsKept name m (commit_pending_marker ast_of env with_store x w).0)
          ((bytes_eq.beq_iff name other).0 t) (commit_own name m w k)
    | inr t ↦
        Spares-IsKept name other m w _ (λ e. ground (arith, t, e, bytes_eq.beq_iff name other))
          (commit-Spares other w) k
  ]

module _ (ast_of : Bytes → Option (List AstNodeInsert)) where
  replay_names-IsKept :
      (envs : ℕ → Env) (with_store : Bool) (names : List Bytes) (w : World) (r : ReplayReport)
      (name : Bytes) (m : PendingMarker)
      → IsKept name m w
      → IsKept name m (replay_names ast_of envs with_store names w r).0
  unfolding replay_names
  replay_names-IsKept envs with_store [] w r name m k = k
  replay_names-IsKept envs with_store (other ∷ names) w r name m k =
      replay_names-IsKept envs with_store names _ _ name m
        (commit-IsKept ast_of (envs (length names)) with_store name other m w k)

  -- A pass over the queue loses no acknowledged write, whatever fails at whichever marker: the
  -- write of every marker that was queued is still queued, or it is committed, or its inode is
  -- gone.
  pub replay_pending_queue-IsKept :
      (envs : ℕ → Env) (list_fails with_store : Bool) (w : World) (name : Bytes) (m : PendingMarker)
      → lookup name w.queue ≡ some (some m)
      → IsKept name m (replay_pending_queue ast_of envs list_fails with_store w).0
  unfolding replay_pending_queue
  replay_pending_queue-IsKept envs list_fails with_store w name m q = elim (Bool-cases list_fails) [
    | inl t ↦ rw (replay_pending_queue, t) (inl q)
    | inr t ↦
        rw (replay_pending_queue, t)
          (replay_names-IsKept envs with_store (list w.queue) w _ name m (inl q))
  ]
