-- ===== src/Tests/Toy.antt =====
-- A stand-in for the cryptography that meets the stated laws and can be run.
use Prim.Native.Nat.{ℕ, zero, suc, ◌+◌, ◌%◌, ◌<◌}
use bencchat.Prelude.{refl, arith, some, [], ◌∷◌, ◌++◌, All, All-append, drop}
use bencchat.Prelude.Bytes.{Bytes, IsByte, bytes_eq, bytes_eq_refl}
use bencchat.E2ee.Crypto.{Crypto, IsCrypto, IsKeyPair, SigningKeyPair}

abbrev pub fill : ℕ → ℕ → Bytes
fill zero b = []
fill (suc n) b = b ∷ fill n b

abbrev pub first : Bytes → ℕ
first [] = 0
first (x ∷ xs) = x

abbrev pub toy : Crypto
toy = record {
  hmac = λ k m. fill 32 ((first k + first m) % 256);
  sha256 = λ m. fill 32 (first m % 256);
  seal = λ n k m. fill 16 0 ++ m;
  unseal = λ n k m. some (drop 16 m);
  sign = λ k m. fill 64 (first k % 256);
  verify = λ k m s. bytes_eq s (fill 64 (first k % 256));
}

pub fill_bytes : (n b : ℕ) → b < 256 → All IsByte (fill n b)
fill_bytes zero b h = tt
fill_bytes (suc n) b h = (h, fill_bytes n b h)

pub toy-IsCrypto : IsCrypto toy
toy-IsCrypto = record {
  hmac_length = λ k m. refl;
  hmac_bytes = λ k m. fill_bytes 32 _ (omega arith);
  sha256_length = λ m. refl;
  sha256_bytes = λ m. fill_bytes 32 _ (omega arith);
  unseal-seal = λ n k m. refl;
  seal_length = λ n k m. omega arith;
  seal_bytes = λ n k m h. All-append IsByte (fill 16 0) m (fill_bytes 16 0 (omega arith)) h;
  sign_length = λ k m. refl;
  sign_bytes = λ k m. fill_bytes 64 _ (omega arith);
}

abbrev pub key_pair : SigningKeyPair
key_pair = record { public_key = 7 ∷ []; private_key = 7 ∷ [] }

pub key_pair-IsKeyPair : IsKeyPair toy key_pair
key_pair-IsKeyPair m = bytes_eq_refl (fill 64 7)
