-- ===== src/Mcp/Files/Confirmed.antt =====
-- What the destructive tools do with a confirmation (crates/smartfs-mcp/src/handler.rs).
use smartfs.Base.{
  ℕ, ◌<◌, ◌⊎◌, ◌≡◌, refl, sym, ap, ◌∙◌, Option, none, some, Bytes, nat_eq, bytes_eq, lookup,
  Distinct, arith, inl, inr, Bool-cases, Option-cases,
}
use smartfs.Schema.Error.{SmartFsError, db, conflict, Result, ok, err, ◌>>=◌}
use smartfs.Db.Models.{Inode, Env, delete_inode}
use smartfs.Db.Inodes.{inode_delete, delete_row}
use smartfs.Mcp.Tokens.{
  TokenManager, PendingConfirmation, DestructiveAction, delete_file, overwrite_file, action_name,
  path, consume_token,
}
use smartfs.Mcp.Tokens.Use.{consume_token_sound}
use smartfs.Mcp.Files.{
  ToolHandler, Answer, success, resolve_path, with_tokens, deleted_file, delete_resolved,
  delete_confirmed, delete_file_tool, content_to_write,
}

named_delete :
    (a : DestructiveAction) (p : Bytes)
    → action_name a ≡ action_name (delete_file p)
    → path a ≡ p
    → a ≡ delete_file p
named_delete (delete_file q) p e f = ap delete_file f
named_delete (overwrite_file q content) p e f = ground (arith, e)

-- The action that a token was made for, as long as it may be used.
abbrev pub Pending : ℕ → Bytes → DestructiveAction → TokenManager → Type 0
Pending now token action m =
    (p : PendingConfirmation) × (lookup token m.tokens ≡ some p)
    × (p.action ≡ action)
    × (now < p.expires_at)

-- The content that a confirmed overwriting writes is that of its confirmation.
pub named_overwrite :
    (a : DestructiveAction) (p content : Bytes)
    → action_name a ≡ action_name (overwrite_file p content)
    → path a ≡ p
    → a ≡ overwrite_file p (content_to_write a content)
named_overwrite (delete_file q) p content e f = ground (arith, e)
named_overwrite (overwrite_file q confirmed) p content e f = ap (λ x. overwrite_file x confirmed) f

module _ (now : ℕ) (token place : Bytes) (m : TokenManager) (d : Distinct m.tokens)
    (action : DestructiveAction) where
  delete-Pending :
      (consume_token now token (action_name (delete_file place)) place m).1 ≡ some action
      → Pending now token (delete_file place) m
        × (lookup token (consume_token now token (action_name (delete_file place)) place m).0.tokens
            ≡ none)
  delete-Pending e =
      let (a, gone) =
        consume_token_sound now token (action_name (delete_file place)) place m d action e in
      (
        (
          a.pending,
          a.found,
          sym a.confirms ∙ named_delete action place a.same_action a.same_path,
          a.in_time,
        ),
        gone,
      )

-- What a confirmed deletion has done: the row at the path is gone with all below it, and nothing else
-- has changed but the tokens, among which the used one is no more.
abbrev pub Deleted : (Bytes → Bytes) → Env → ℕ → Bytes → Bytes → ToolHandler → ToolHandler → Type 0
Deleted trim env now place token h q =
    (row : ℕ × Inode) × (resolve_path trim env place h.db ≡ ok row)
    × (q.db ≡ delete_row row.0 h.db)
    × (q.blobs ≡ h.blobs)
    × Pending now token (delete_file place) h.tokens
    × (lookup token q.tokens.tokens ≡ none)

module _ (trim : Bytes → Bytes) (env : Env) (now : ℕ) (new_token place token : Bytes)
    (h : ToolHandler) where
  delete_result :
      (g : ToolHandler) (r : Result (ℕ × Inode))
      → ((e : SmartFsError) × (deleted_file place g (r >>= λ row. inode_delete env row.0 g.db)
            ≡ (g, err e)))
        ⊎ ((row : ℕ × Inode) × (r ≡ ok row)
            × (deleted_file place g (r >>= λ row. inode_delete env row.0 g.db)
                ≡ (record g { db = delete_row row.0 g.db }, ok (success place none))))
  unfolding inode_delete
  delete_result g (err e) = inl (e, refl)
  delete_result g (ok row) = elim (Bool-cases (env.sql_fails delete_inode)) [
    | inl f ↦ inl (db, rw f refl)
    | inr f ↦ inr (row, refl, rw f refl)
  ]

  abbrev consumed : TokenManager × Option DestructiveAction
  consumed = consume_token now token (action_name (delete_file place)) place h.tokens

  delete_run :
      (x : Option DestructiveAction)
      → consumed.1 ≡ x
      → delete_file_tool trim env now new_token place (some token) h
        ≡ delete_confirmed trim env place h (consumed.0, x)
  unfolding delete_file_tool
  delete_run x e = ap (λ y. delete_confirmed trim env place h (consumed.0, y)) e

  abbrev Refused : ToolHandler → Result Answer → Type 0
  Refused q r = (e : SmartFsError) × (r ≡ err e) × (q.db ≡ h.db) × (q.blobs ≡ h.blobs)

  delete_resolved_result :
      (action : DestructiveAction) (q : ToolHandler) (r : Result Answer)
      → Distinct h.tokens.tokens
      → consumed.1 ≡ some action
      → delete_resolved trim env place (with_tokens consumed.0 h) ≡ (q, r)
      → ((r ≡ ok (success place none)) × Deleted trim env now place token h q) ⊎ Refused q r
  delete_resolved_result action q r d e run =
      elim (delete_result (with_tokens consumed.0 h) (resolve_path trim env place h.db)) [
        | inl (x, f) ↦
            let same = sym run ∙ f in
            inr (x, ap (λ p. p.1) same, ap (λ p. p.0.db) same, ap (λ p. p.0.blobs) same)
        | inr (row, found, f) ↦
            let same = sym run ∙ f in
            let (pending, gone) = delete-Pending now token place h.tokens d action e in
            inl (
              ap (λ p. p.1) same,
              (
                row,
                found,
                ap (λ p. p.0.db) same,
                ap (λ p. p.0.blobs) same,
                pending,
                ap (λ p. lookup token p.0.tokens.tokens) same ∙ gone,
              ),
            )
      ]

  -- A call of `delete_file` with a token is either refused, and leaves the tables and the blobs as they
  -- were, or the token was pending for the deletion of this very path and in time: then the inode that
  -- the path leads to is deleted with all that is below it, no blob is touched, and the token is used up.
  pub delete_file_tool_confirmed :
      (q : ToolHandler) (r : Result Answer)
      → Distinct h.tokens.tokens
      → delete_file_tool trim env now new_token place (some token) h ≡ (q, r)
      → ((r ≡ ok (success place none)) × Deleted trim env now place token h q)
        ⊎ ((e : SmartFsError) × (r ≡ err e) × (q.db ≡ h.db) × (q.blobs ≡ h.blobs))
  delete_file_tool_confirmed q r d run = elim (Option-cases consumed.1) [
    | inl e ↦
        let same = sym run ∙ delete_run none e in
        inr (conflict, ap (λ p. p.1) same, ap (λ p. p.0.db) same, ap (λ p. p.0.blobs) same)
    | inr (action, e) ↦
        delete_resolved_result action q r d e (sym (delete_run (some action) e) ∙ run)
  ]
