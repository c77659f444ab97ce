-- ===== src/Runtime.antt =====
-- The sidecar side of the SDK: runtime/.
pub mod Token
pub mod Context
pub mod Rpc
pub mod Server
pub mod Helpers
