-- ===== src/Crypto.antt =====
-- What the program uses of libsodium and of hyperdht's key derivation (outside this repository):
-- SHA-256 and the Ed25519 key pair of a seed, whose public half is all that the program looks at.
use holesail_cpp.Base.{◌≡◌, length, Bytes, AreBytes}

pub record Crypto : Type 0 where
  -- `crypto_hash_sha256`
  pub sha256 : Bytes → Bytes
  pub sha256-AreBytes : (s : Bytes) → AreBytes (sha256 s)
  pub length-sha256 : (s : Bytes) → length (sha256 s) ≡ 32
  -- the public key that `hyperdht_keypair_from_seed` derives
  pub public_key_of : Bytes → Bytes
  pub public_key_of-AreBytes : (seed : Bytes) → AreBytes (public_key_of seed)
  pub length-public_key_of : (seed : Bytes) → length (public_key_of seed) ≡ 32
