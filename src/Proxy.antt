-- ===== src/Proxy.antt =====
-- internal/proxy: where a request is sent.
pub mod Router
