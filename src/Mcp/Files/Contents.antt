-- ===== src/Mcp/Files/Contents.antt =====
-- `overwrite_file` writes what was confirmed (crates/smartfs-mcp/src/handler.rs).
use smartfs.Base.{
  ℕ, ◌≡◌, refl, sym, ap, subst, ◌∙◌, Option, none, some, Bytes, nat_eq, bytes_eq, lookup, insert,
  lookup-insert_self, Distinct, arith, inl, inr, Bool-cases, Option-cases,
}
use smartfs.Schema.Error.{SmartFsError, io, conflict, Result, ok, err}
use smartfs.Db.Models.{Db, Inode, Env, put}
use smartfs.Db.History.{cow_commit}
use smartfs.Mcp.Tokens.{TokenManager, DestructiveAction, overwrite_file, action_name, consume_token}
use smartfs.Mcp.Tokens.Use.{consume_token_sound}
use smartfs.Mcp.Files.{
  ToolHandler, Answer, success, resolve_path, with_tokens, overwrite_commit, overwritten,
  write_content, content_to_write, overwrite_confirmed, overwrite_file_tool,
}
use smartfs.Mcp.Files.Confirmed.{Pending, named_overwrite}
use smartfs.Mcp.Files.Overwritten.{IsLatest, IsRow, cow_commit-IsLatest, resolve_path-IsRow}

no_answer : (r : Result Answer) (e : SmartFsError) (a : Answer) → r ≡ err e → r ≡ ok a → ⊥
no_answer r e a f h = ground (arith, f, h)

module _ (hash : Bytes → Bytes) (env : Env) (blob_id version_id : ℕ) (place bytes : Bytes)
    (g : ToolHandler) where
  -- What an acknowledged write of a content has done.
  abbrev Stored : (q : ToolHandler) → Answer → Result (ℕ × Inode) → Type 0
  Stored q a r =
      (row : ℕ × Inode) × (v : ℕ) × (r ≡ ok row)
      × (cow_commit env version_id (overwrite_commit hash row.0 blob_id bytes) g.db ≡ (q.db, ok v))
      × (a ≡ success place (some v))
      × (q.blobs ≡ insert blob_id bytes g.blobs)
      × (q.tokens ≡ g.tokens)

  overwritten_result :
      (row : ℕ × Inode) (p : Db × Result ℕ) (q : ToolHandler) (a : Answer)
      → cow_commit env version_id (overwrite_commit hash row.0 blob_id bytes) g.db ≡ p
      → overwritten place (record g { blobs = insert blob_id bytes g.blobs }) p ≡ (q, ok a)
      → Stored q a (ok row)
  overwritten_result row (d, err e) q a f h = elim (no_answer _ e a refl (ap (λ x. x.1) h)) [ ]
  overwritten_result row (d, ok v) q a f h = (
    row,
    v,
    refl,
    f ∙ ap (λ x. (x.0.db, ok v)) h,
    ground (arith, h),
    ap (λ x. x.0.blobs) (sym h),
    ap (λ x. x.0.tokens) (sym h),
  )

  write_content_result :
      (r : Result (ℕ × Inode)) (q : ToolHandler) (a : Answer)
      → write_content hash env blob_id version_id place bytes g r ≡ (q, ok a)
      → Stored q a r
  write_content_result (err e) q a h = elim (no_answer _ e a refl (ap (λ x. x.1) h)) [ ]
  write_content_result (ok row) q a h = elim (Bool-cases (env.store_fails put)) [
    | inl f ↦
        elim (no_answer (write_content hash env blob_id version_id place bytes g (ok row)).1
          (io none) a (rw f refl) (ap (λ x. x.1) h)) [ ]
    | inr f ↦ overwritten_result row _ q a refl (sym (rw f refl) ∙ h)
  ]

-- What a confirmed overwriting has done.
abbrev pub Overwrote :
    (trim hash : Bytes → Bytes)
    → Env
    → (now blob_id version_id : ℕ) → (place token : Bytes) → (h q : ToolHandler) → Answer
    → Type 0
Overwrote trim hash env now blob_id version_id place token h q a =
    (confirmed : Bytes) × (row : ℕ × Inode) × Pending now token (overwrite_file place confirmed)
      h.tokens
    × (lookup token q.tokens.tokens ≡ none)
    × (resolve_path trim env place h.db ≡ ok row)
    × (lookup blob_id q.blobs ≡ some confirmed)
    × IsLatest (overwrite_commit hash row.0 blob_id confirmed) version_id q.db
    × (a ≡ success place (some version_id))

module _ (trim hash : Bytes → Bytes) (env : Env) (now : ℕ) (new_token : Bytes)
    (blob_id version_id : ℕ) (place content token : Bytes) (h q : ToolHandler) (a : Answer) where
  abbrev consumed : TokenManager × Option DestructiveAction
  consumed = consume_token now token (action_name (overwrite_file place content)) place h.tokens

  overwrite_run :
      (x : Option DestructiveAction)
      → consumed.1 ≡ x
      → overwrite_file_tool trim hash env now new_token blob_id version_id place content
          (some token)
          h
        ≡ overwrite_confirmed trim hash env blob_id version_id place content h (consumed.0, x)
  unfolding overwrite_file_tool
  overwrite_run x e =
      ap (λ y. overwrite_confirmed trim hash env blob_id version_id place content h (consumed.0, y))
        e

  written_content :
      (action : DestructiveAction)
      → Distinct h.tokens.tokens
      → Distinct h.db.inodes
      → lookup version_id h.db.versions ≡ none
      → consumed.1 ≡ some action
      → Stored hash env blob_id version_id place
          (content_to_write action content)
          (with_tokens consumed.0 h)
          q
          a
          (resolve_path trim env place h.db)
      → Overwrote trim hash env now blob_id version_id place token h q a
  written_content action d di fresh e (row, v, found, run, same, blobs, tokens) =
      let (accepted, gone) =
        consume_token_sound now token (action_name (overwrite_file place content)) place h.tokens d
          action e in
      let bytes = content_to_write action content in
      let (id, latest) =
        cow_commit-IsLatest env version_id (overwrite_commit hash row.0 blob_id bytes) h.db row.1
          fresh (subst (λ r. IsRow env h.db di r) found (resolve_path-IsRow env h.db di trim place))
          q.db v run in
      (
        bytes,
        row,
        (
          accepted.pending,
          accepted.found,
          sym accepted.confirms
              ∙ named_overwrite action place content accepted.same_action accepted.same_path,
          accepted.in_time,
        ),
        ap (λ m. lookup token m.tokens) tokens ∙ gone,
        found,
        ap (lookup blob_id) blobs ∙ lookup-insert_self blob_id bytes h.blobs,
        latest,
        same ∙ ap (λ n. success place (some n)) id,
      )

  -- If `overwrite_file` with a token is acknowledged, in tables with distinct keys and with a version
  -- id that is new, then the token was pending, in time, for the overwriting of this very path, and it
  -- is used up; the store has, under the new blob's id, the content that was confirmed, whatever content
  -- the call gave; and the latest version of the inode at the path names this blob, with the hash and the
  -- length of that content.
  pub overwrite_file_tool_confirmed :
      Distinct h.tokens.tokens
      → Distinct h.db.inodes
      → lookup version_id h.db.versions ≡ none
      → overwrite_file_tool trim hash env now new_token blob_id version_id place content
          (some token)
          h
        ≡ (q, ok a)
      → Overwrote trim hash env now blob_id version_id place token h q a
  overwrite_file_tool_confirmed d di fresh run = elim (Option-cases consumed.1) [
    | inl e ↦
        elim (no_answer _ conflict a (ap (λ x. x.1) (overwrite_run none e)) (ap (λ x. x.1) run)) [ ]
    | inr (action, e) ↦ written_content action d di fresh e (
        write_content_result hash env blob_id version_id place (content_to_write action content)
          (with_tokens consumed.0 h) (resolve_path trim env place h.db) q a
          (sym (overwrite_run (some action) e) ∙ run))
  ]
