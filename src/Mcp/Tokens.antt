-- ===== src/Mcp/Tokens.antt =====
-- Confirmation tokens for destructive operations (crates/smartfs-mcp/src/tokens.rs). The clock and
-- the token that `Uuid::new_v4` makes are arguments; times are numbers.
pub mod Use
use smartfs.Base.{
  ℕ, ◌+◌, Bool, true, false, not, ◌||◌, Option, none, some, List, [], ◌∷◌, Bytes, bytes_eq, ltb,
  ◌==◌, if◌then◌else◌, Map, lookup, insert, remove, retain,
}

pub data DestructiveAction : Type 0 where
  delete_file : (path : Bytes) → DestructiveAction
  overwrite_file : (path content : Bytes) → DestructiveAction

-- "delete_file" and "overwrite_file"
abbrev pub action_name : DestructiveAction → Bytes
action_name (delete_file p) =
    b'd' ∷ b'e' ∷ b'l' ∷ b'e' ∷ b't' ∷ b'e' ∷ b'_' ∷ b'f' ∷ b'i' ∷ b'l' ∷ b'e' ∷ []
action_name (overwrite_file p content) =
    b'o' ∷ b'v' ∷ b'e' ∷ b'r' ∷ b'w' ∷ b'r' ∷ b'i' ∷ b't' ∷ b'e' ∷ b'_' ∷ b'f' ∷ b'i' ∷ b'l' ∷ b'e'
    ∷ []

abbrev pub path : DestructiveAction → Bytes
path (delete_file p) = p
path (overwrite_file p content) = p

pub record PendingConfirmation : Type 0 where
  pub token : Bytes
  pub action : DestructiveAction
  pub expires_at : ℕ

pub record TokenManager : Type 0 where
  pub tokens : Map Bytes PendingConfirmation
  pub ttl : ℕ

unfoldable pub cleanup_expired : ℕ → TokenManager → TokenManager
cleanup_expired now m = record m { tokens = retain (λ v. ltb now v.expires_at) m.tokens }

unfoldable pub create_token : ℕ → Bytes → DestructiveAction → TokenManager → TokenManager × Bytes
create_token now token action m =
    let q = cleanup_expired now m in
    (
      record q {
        tokens =
            insert token (record { token = token; action = action; expires_at = now + m.ttl })
              q.tokens;
      },
      token,
    )

-- Whether a confirmation is for the action and the path that are expected.
abbrev pub is_for : Bytes → Bytes → PendingConfirmation → Bool
is_for expected_action expected_path p =
    not (not (action_name p.action == expected_action) || not (path p.action == expected_path))

unfoldable pub consume_token :
    ℕ → Bytes → Bytes → Bytes → TokenManager → TokenManager × Option DestructiveAction
consume_token now token expected_action expected_path m =
    let q = cleanup_expired now m in
    elim (lookup token q.tokens) [
      | none ↦ (q, none)
      | some pending ↦
          if is_for expected_action expected_path pending
          then (record q { tokens = remove token q.tokens }, some pending.action)
          else (q, none)
    ]
