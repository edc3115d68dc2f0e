-- ===== src/Httpapi.antt =====
-- internal/httpapi: what guards the HTTP interface.
pub mod RateLimit
