-- ===== src/Interceptor.antt =====
-- The interceptors under common/interceptor/: what they do to a span and to the call that they wrap.
pub mod Spans
pub mod Server
pub mod Passing
pub mod Http
pub mod Shutdown
