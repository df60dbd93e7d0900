-- ===== src/Tests/Toy.antt =====
-- A stand-in for libsodium and hyperdht's key derivation, with the sizes of the real ones.
use holesail_cpp.Base.{
  ℕ, zero, suc, ◌+◌, ◌%◌, [], ◌∷◌, Bytes, AreBytes, IsByte, length, refl, arith,
}
use holesail_cpp.Crypto.{Crypto}

abbrev pub fill : ℕ → ℕ → Bytes
fill zero b = []
fill (suc n) b = b ∷ fill n b

pub fill-AreBytes : (n b : ℕ) → IsByte b → AreBytes (fill n b)
fill-AreBytes zero b h = tt
fill-AreBytes (suc n) b h = (h, fill-AreBytes n b h)

abbrev pub first : Bytes → ℕ
first [] = 0
first (b ∷ bs) = b

abbrev pub toy : Crypto
toy = record {
  sha256 = λ s. fill 32 ((first s + length s) % 256);
  sha256-AreBytes = λ s. fill-AreBytes 32 ((first s + length s) % 256) (omega arith);
  length-sha256 = λ s. refl;
  public_key_of = λ seed. fill 32 ((first seed + 1) % 256);
  public_key_of-AreBytes = λ seed. fill-AreBytes 32 ((first seed + 1) % 256) (omega arith);
  length-public_key_of = λ seed. refl;
}
