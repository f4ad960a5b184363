-- ===== src/Policy.antt =====
-- Route policies and capability scopes: src/routePolicy.ts, src/capability.ts.
pub mod Glob
pub mod Scope
pub mod Route
