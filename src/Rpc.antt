-- ===== src/Rpc.antt =====
-- go/internal/rpc/client.go: the client that spreads its requests over several providers.
pub mod Limiter
mod Tests
pub mod Errors
pub mod Provider
pub mod Health
pub mod Choice
pub mod Call
