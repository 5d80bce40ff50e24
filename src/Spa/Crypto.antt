-- ===== src/Spa/Crypto.antt =====
-- The cryptography that the SPA code calls: crypto/hmac with SHA-1 and SHA-256, crypto/sha256 and
-- crypto/ed25519. It is not in the repository, so it is a parameter.
use phantom_grid.Prelude.{Bool, true, Option, none, some, ◌≡◌, ◌≢◌}
use phantom_grid.Prelude.Bytes.{Bytes}
use phantom_grid.Prelude.{length}

pub record Crypto : Type 0 where
  -- key and message
  pub hmac_sha1 : Bytes → Bytes → Bytes
  pub hmac_sha256 : Bytes → Bytes → Bytes
  pub sha256 : Bytes → Bytes
  -- private key and message; `none` is the panic on a key of a wrong size
  pub sign : Bytes → Bytes → Option Bytes
  -- public key, message and signature; `none` is the panic on a key of a wrong size
  pub verify : Bytes → Bytes → Bytes → Option Bool
  -- the public key of a private key
  pub public : Bytes → Bytes

-- What the packages document and the code relies on.
pub record IsLawful (c : Crypto) : Type 0 where
  pub hmac_sha1_size : (k m : Bytes) → length (c.hmac_sha1 k m) ≡ 20
  pub hmac_sha256_size : (k m : Bytes) → length (c.hmac_sha256 k m) ≡ 32
  -- a private key of 64 bytes signs, with 64 bytes
  pub sign_size :
      (k m : Bytes) → length k ≡ 64 → (s : Bytes) × (c.sign k m ≡ some s) × (length s ≡ 64)
  -- a signature is accepted under the key that belongs to it
  pub verify-sign : (k m s : Bytes) → c.sign k m ≡ some s → c.verify (c.public k) m s ≡ some true
  -- a public key of 32 bytes is checked without a panic
  pub verify_defined : (p m s : Bytes) → length p ≡ 32 → c.verify p m s ≢ none
  pub public_size : (k : Bytes) → length k ≡ 64 → length (c.public k) ≡ 32
  -- a signature of another size is never accepted
  pub verify_size : (p m s : Bytes) → c.verify p m s ≡ some true → length s ≡ 64
