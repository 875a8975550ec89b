-- ===== src/Mcp.antt =====
-- The server of the Model Context Protocol (crates/smartfs-mcp/src).
pub mod Tokens
pub mod Files
