-- ===== src/Crypto.antt =====
-- src/crypto: the hashes and the key pair. libsodium, noble and secp256k1 are not under src/: they
-- are the record `Crypto`, and what the node relies on of them is the record `IsSound`.
pub mod Toy
pub mod Signatures
mod Defs
unfoldable pub use Defs.*
