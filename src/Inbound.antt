-- ===== src/Inbound.antt =====
-- The parts of inbound/: handler.go (Handler, Startup), the swap of its configurations (Wrapper), doh.go (Doh).
pub mod Handler
pub mod Wrapper
pub mod Doh
pub mod Startup
