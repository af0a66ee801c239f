-- ===== src/Api.antt =====
-- internal/api/server.go: the HTTP interface.
pub mod Admin
