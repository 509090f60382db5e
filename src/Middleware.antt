-- ===== src/Middleware.antt =====
-- middleware/: the limiter of request rates.
pub mod RateLimit
