-- ===== src/E2ee/Crypto.antt =====
-- The primitives that internal/e2ee takes from crypto/* and golang.org/x/crypto, and what it relies
-- on: opening undoes sealing under one key and nonce, a key pair's signature verifies, and sizes.
use bencchat.Prelude.{◌+◌, ◌≡◌, Bool, true, Option, some, All, length}
use bencchat.Prelude.Bytes.{Bytes, IsByte}

pub record Crypto : Type 0 where
  pub hmac : Bytes → Bytes → Bytes
  pub sha256 : Bytes → Bytes
  -- secretbox: nonce, key, text
  pub seal : Bytes → Bytes → Bytes → Bytes
  pub unseal : Bytes → Bytes → Bytes → Option Bytes
  -- ed25519: private key or public key, text
  pub sign : Bytes → Bytes → Bytes
  pub verify : Bytes → Bytes → Bytes → Bool

pub record SigningKeyPair : Type 0 where
  pub public_key : Bytes
  pub private_key : Bytes

pub record IsCrypto (c : Crypto) : Type 0 where
  pub hmac_length : (k m : Bytes) → length (c.hmac k m) ≡ 32
  pub hmac_bytes : (k m : Bytes) → All IsByte (c.hmac k m)
  pub sha256_length : (m : Bytes) → length (c.sha256 m) ≡ 32
  pub sha256_bytes : (m : Bytes) → All IsByte (c.sha256 m)
  pub unseal-seal : (n k m : Bytes) → c.unseal n k (c.seal n k m) ≡ some m
  pub seal_length : (n k m : Bytes) → length (c.seal n k m) ≡ length m + 16
  pub seal_bytes : (n k m : Bytes) → All IsByte m → All IsByte (c.seal n k m)
  pub sign_length : (k m : Bytes) → length (c.sign k m) ≡ 64
  pub sign_bytes : (k m : Bytes) → All IsByte (c.sign k m)

-- What ed25519 promises of the key pairs that it generates.
abbrev pub IsKeyPair : Crypto → SigningKeyPair → Type 0
IsKeyPair c kp = (m : Bytes) → c.verify kp.public_key m (c.sign kp.private_key m) ≡ true
