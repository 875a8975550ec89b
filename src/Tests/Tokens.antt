-- ===== src/Tests/Tokens.antt =====
-- Confirmation tokens at concrete inputs (crates/smartfs-mcp/src/tokens.rs).
use smartfs.Base.{
  ◌≡◌, refl, none, [], ◌∷◌, Bytes, lookup, insert, remove, retain, bytes_eq, bytes_beq,
}
use smartfs.Mcp.Tokens.{
  DestructiveAction, delete_file, TokenManager, action_name, create_token, consume_token,
  cleanup_expired,
}
use smartfs.Mcp.Tokens.Use.{consumes, serve_all, consume_token_once}

abbrev empty_manager : TokenManager
empty_manager = record { tokens = []; ttl = 300 }

abbrev deletion : DestructiveAction
deletion = delete_file (b'/' ∷ b'x' ∷ [])

abbrev token : Bytes
token = b't' ∷ []

abbrev pending : TokenManager
pending = (create_token 1000 token deletion empty_manager).0

consume_token_once_example :
    (consume_token 1202 token (action_name deletion) (b'/' ∷ b'x' ∷ []) (
      serve_all
        (consumes 1201 token [] [] ∷ [])
        (consume_token 1200 token (action_name deletion) (b'/' ∷ b'x' ∷ []) pending).0)).1
    ≡ none
unfolding create_token consume_token cleanup_expired retain lookup insert remove bytes_beq
consume_token_once_example =
    consume_token_once 1200 1202 token (action_name deletion) (b'/' ∷ b'x' ∷ [])
      (action_name deletion) (b'/' ∷ b'x' ∷ []) deletion (consumes 1201 token [] [] ∷ []) pending
      (refl, tt) refl tt
