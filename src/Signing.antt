-- ===== src/Signing.antt =====
-- internal/signing: RFC 9421 signatures over the signed-entry envelope.
pub mod Message
pub mod Signer
pub mod Verifier
pub mod Fetcher
pub mod Headers
pub mod Written
pub mod RoundTrip
pub mod Signed
pub mod Checks
pub mod ActiveKey
pub mod Toy
mod Tests
