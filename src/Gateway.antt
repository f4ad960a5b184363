-- ===== src/Gateway.antt =====
-- src/gateway.ts: the normalization of request paths (Path) and the checks of a request (Verify).
pub mod Path
pub mod Verify
