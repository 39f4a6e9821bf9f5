-- ===== src/Nano.antt =====
-- internal/nano: account addresses, keys, challenge signatures and amounts. BLAKE2b (golang.org/x/crypto),
-- the curve of filippo.io/edwards25519 and big.Rat of math/big are parameters.
pub mod Account
pub mod Signing
pub mod Keys
pub mod Amount
pub mod Sample
mod Tests
