-- ===== src/McpGateway.antt =====
-- apps/api/app/mcp_gateway: which tools of external servers an agent can call.
pub mod DbxReadonly
pub mod SqlText
