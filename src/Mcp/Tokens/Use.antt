-- ===== src/Mcp/Tokens/Use.antt =====
-- A token confirms its own operation, in time, and once (crates/smartfs-mcp/src/tokens.rs).
use smartfs.Base.{
  ℕ, ◌+◌, ◌<◌, ◌≡◌, ◌≢◌, Bool, true, Option, none, some, Option-cases, inl, inr, Bool-cases, List,
  [], ◌∷◌, Bytes, bytes_eq, ltb, Distinct, lookup, keep_if, lookup-retain, retain-Distinct,
  lookup-insert, lookup-insert_self, lookup-remove, insert-Distinct, remove-Distinct, arith,
}
use smartfs.Mcp.Tokens.{
  DestructiveAction, PendingConfirmation, TokenManager, action_name, path, is_for, cleanup_expired,
  create_token, consume_token,
}

-- A token that was accepted: it was pending for the expected action and path, in time.
pub record Accepted (now : ℕ) (token expected_action expected_path : Bytes) (m : TokenManager)
    (action : DestructiveAction) : Type 0 where
  pub pending : PendingConfirmation
  pub found : lookup token m.tokens ≡ some pending
  pub confirms : action ≡ pending.action
  pub in_time : now < pending.expires_at
  pub same_action : action_name action ≡ expected_action
  pub same_path : path action ≡ expected_path

keep_if-some :
    {V : Type 0} (p : V → Bool) (o : Option V) (v : V)
    → keep_if p o ≡ some v
    → (o ≡ some v) × (p v ≡ true)
keep_if-some p none v e = cc
keep_if-some p (some u) v e = (ground (arith, e), ground (arith, e))

is_for_sound :
    (a p : Bytes) (c : PendingConfirmation)
    → is_for a p c ≡ true
    → (action_name c.action ≡ a) × (path c.action ≡ p)
is_for_sound a p c e = (
  ground (arith, e, bytes_eq.beq_iff (action_name c.action) a),
  ground (arith, e, bytes_eq.beq_iff (path c.action) p),
)

-- What is left after the expired tokens are gone.
cleaned :
    (now : ℕ) (token : Bytes) (m : TokenManager)
    → Distinct m.tokens
    → lookup token (cleanup_expired now m).tokens
      ≡ keep_if (λ v. ltb now v.expires_at) (lookup token m.tokens)
unfolding cleanup_expired
cleaned now token m d = lookup-retain (λ v. ltb now v.expires_at) token m.tokens d

module _ (now : ℕ) (token expected_action expected_path : Bytes) (m : TokenManager)
    (d : Distinct m.tokens) (action : DestructiveAction) where
  found_sound :
      (pending : PendingConfirmation)
      → lookup token (cleanup_expired now m).tokens ≡ some pending
      → is_for expected_action expected_path pending ≡ true
      → action ≡ pending.action
      → Accepted now token expected_action expected_path m action
  found_sound pending f t same =
      let (found, live) =
        keep_if-some (λ v. ltb now v.expires_at) (lookup token m.tokens) pending
          (ground (arith, cleaned now token m d, f)) in
      let (a, p) = is_for_sound expected_action expected_path pending t in
      record {
        pending = pending;
        found = found;
        confirms = same;
        in_time = ground (arith, live);
        same_action = ground (arith, same, a);
        same_path = ground (arith, same, p);
      }

  -- A token is accepted only if it is pending, for the expected action and path, and its time is
  -- not over; and it is gone then.
  pub consume_token_sound :
      (consume_token now token expected_action expected_path m).1 ≡ some action
      → Accepted now token expected_action expected_path m action
        × (lookup token (consume_token now token expected_action expected_path m).0.tokens ≡ none)
  unfolding consume_token
  consume_token_sound e = elim (Option-cases (lookup token (cleanup_expired now m).tokens)) [
    | inl f ↦ ground (arith, e, f)
    | inr (pending, f) ↦ elim (Bool-cases (is_for expected_action expected_path pending)) [
      | inl t ↦ (
        found_sound pending f t (ground (arith, e, f, t)),
        grind (arith, f, t, lookup-remove, bytes_eq.beq_iff token token),
      )
      | inr t ↦ ground (arith, e, f, t)
    ]
  ]

-- A call on the manager, at its time.
pub data Request : Type 0 where
  creates : (now : ℕ) (token : Bytes) (action : DestructiveAction) → Request
  consumes : (now : ℕ) (token expected_action expected_path : Bytes) → Request

abbrev pub serve : Request → TokenManager → TokenManager
serve (creates now token action) m = (create_token now token action m).0
serve (consumes now token a p) m = (consume_token now token a p m).0

abbrev pub serve_all : List Request → TokenManager → TokenManager
serve_all [] m = m
serve_all (c ∷ cs) m = serve_all cs (serve c m)

-- No call makes the token again: `Uuid::new_v4` does not repeat itself.
abbrev pub IsFreshFor : Bytes → List Request → Type 0
IsFreshFor token [] = Unit
IsFreshFor token (creates now other action ∷ cs) = (other ≢ token) × IsFreshFor token cs
IsFreshFor token (consumes now other a p ∷ cs) = IsFreshFor token cs

cleanup-absent :
    (now : ℕ) (token : Bytes) (m : TokenManager)
    → Distinct m.tokens
    → lookup token m.tokens ≡ none
    → lookup token (cleanup_expired now m).tokens ≡ none
cleanup-absent now token m d gone = ground (arith, cleaned now token m d, gone)

cleanup-Distinct :
    (now : ℕ) (m : TokenManager) → Distinct m.tokens → Distinct (cleanup_expired now m).tokens
unfolding cleanup_expired
cleanup-Distinct now m d = retain-Distinct (λ v. ltb now v.expires_at) m.tokens d

pub consume-Distinct :
    (now : ℕ) (token a p : Bytes) (m : TokenManager)
    → Distinct m.tokens
    → Distinct (consume_token now token a p m).0.tokens
unfolding consume_token
consume-Distinct now token a p m d = grind (arith, cleanup-Distinct now m d, remove-Distinct)

create-Distinct :
    (now : ℕ) (token : Bytes) (action : DestructiveAction) (m : TokenManager)
    → Distinct m.tokens
    → Distinct (create_token now token action m).0.tokens
unfolding create_token
create-Distinct now token action m d =
    insert-Distinct token _ (cleanup_expired now m).tokens (cleanup-Distinct now m d)

serve-absent :
    (token : Bytes) (c : Request) (m : TokenManager)
    → IsFreshFor token (c ∷ [])
    → Distinct m.tokens
    → lookup token m.tokens ≡ none
    → (lookup token (serve c m).tokens ≡ none) × Distinct (serve c m).tokens
unfolding create_token consume_token
serve-absent token (creates now other action) m fresh d gone = (
  grind (
    arith,
    lookup-insert,
    cleanup-absent now token m d gone,
    fresh.0,
    bytes_eq.beq_iff other token,
  ),
  create-Distinct now other action m d,
)
serve-absent token (consumes now other a p) m fresh d gone = (
  grind (arith, lookup-remove, cleanup-absent now token m d gone),
  consume-Distinct now other a p m d,
)

serve_all-absent :
    (token : Bytes) (cs : List Request) (m : TokenManager)
    → IsFreshFor token cs
    → Distinct m.tokens
    → lookup token m.tokens ≡ none
    → (lookup token (serve_all cs m).tokens ≡ none) × Distinct (serve_all cs m).tokens
serve_all-absent token [] m fresh d gone = (gone, d)
serve_all-absent token (creates now other action ∷ cs) m fresh d gone =
    let (away, distinct) = serve-absent token (creates now other action) m (fresh.0, tt) d gone in
    serve_all-absent token cs _ fresh.1 distinct away
serve_all-absent token (consumes now other a p ∷ cs) m fresh d gone =
    let (away, distinct) = serve-absent token (consumes now other a p) m tt d gone in
    serve_all-absent token cs _ fresh distinct away

-- A token is accepted at most once: after it was accepted, no later call accepts it, whatever calls
-- come in between, as long as no new confirmation is given the same token.
pub consume_token_once :
    (now later : ℕ) (token a p b q : Bytes) (action : DestructiveAction) (cs : List Request)
    (m : TokenManager)
    → Distinct m.tokens
    → (consume_token now token a p m).1 ≡ some action
    → IsFreshFor token cs
    → (consume_token later token b q (serve_all cs (consume_token now token a p m).0)).1 ≡ none
unfolding consume_token
consume_token_once now later token a p b q action cs m d e fresh =
    let gone = (consume_token_sound now token a p m d action e).1 in
    let (away, distinct) =
      serve_all-absent token cs (consume_token now token a p m).0 fresh
        (consume-Distinct now token a p m d) gone in
    grind (
      arith,
      cleanup-absent later token (serve_all cs (consume_token now token a p m).0) distinct away,
    )

-- Calls before a time, none of which is about the token.
abbrev pub IsAside : Bytes → ℕ → List Request → Type 0
IsAside token limit [] = Unit
IsAside token limit (creates now other action ∷ cs) =
    (other ≢ token) × (now < limit) × IsAside token limit cs
IsAside token limit (consumes now other a p ∷ cs) =
    (other ≢ token) × (now < limit) × IsAside token limit cs

cleanup-live :
    (now : ℕ) (token : Bytes) (c : PendingConfirmation) (m : TokenManager)
    → Distinct m.tokens
    → lookup token m.tokens ≡ some c
    → now < c.expires_at
    → lookup token (cleanup_expired now m).tokens ≡ some c
cleanup-live now token c m d there live = ground (arith, cleaned now token m d, there, live)

serve_all-live :
    (token : Bytes) (c : PendingConfirmation) (cs : List Request) (m : TokenManager)
    → IsAside token c.expires_at cs
    → Distinct m.tokens
    → lookup token m.tokens ≡ some c
    → (lookup token (serve_all cs m).tokens ≡ some c) × Distinct (serve_all cs m).tokens
unfolding create_token consume_token
serve_all-live token c [] m aside d there = (there, d)
serve_all-live token c (creates now other action ∷ cs) m aside d there =
    serve_all-live token c cs (create_token now other action m).0 aside.2
      (create-Distinct now other action m d)
      (grind (
        arith,
        lookup-insert,
        cleanup-live now token c m d there aside.1,
        aside.0,
        bytes_eq.beq_iff other token,
      ))
serve_all-live token c (consumes now other a p ∷ cs) m aside d there =
    serve_all-live token c cs (consume_token now other a p m).0 aside.2
      (consume-Distinct now other a p m d)
      (grind (
        arith,
        lookup-remove,
        cleanup-live now token c m d there aside.1,
        aside.0,
        bytes_eq.beq_iff other token,
      ))

created :
    (now : ℕ) (token : Bytes) (action : DestructiveAction) (m : TokenManager)
    → lookup token (create_token now token action m).0.tokens
      ≡ some (record { token = token; action = action; expires_at = now + m.ttl })
unfolding create_token
created now token action m = lookup-insert_self token _ (cleanup_expired now m).tokens

-- A confirmation is honoured: the token that was made for an operation confirms this operation
-- until its time is over, whatever calls about other tokens come in between.
pub consume_token-create_token :
    (now later : ℕ) (token : Bytes) (action : DestructiveAction) (cs : List Request)
    (m : TokenManager)
    → Distinct m.tokens
    → IsAside token (now + m.ttl) cs
    → later < now + m.ttl
    → (consume_token later token
        (action_name action)
        (path action)
        (serve_all cs (create_token now token action m).0)).1
      ≡ some action
unfolding consume_token
consume_token-create_token now later token action cs m d aside in_time =
    let c : PendingConfirmation = record {
      token = token;
      action = action;
      expires_at = now + m.ttl;
    } in
    let made = (create_token now token action m).0 in
    let (there, distinct) =
      serve_all-live token c cs made aside (create-Distinct now token action m d)
        (created now token action m) in
    let live = cleanup-live later token c (serve_all cs made) distinct there in_time in
    ground (
      arith,
      live,
      bytes_eq.beq_iff (action_name action) (action_name action),
      bytes_eq.beq_iff (path action) (path action),
    )
