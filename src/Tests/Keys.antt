-- ===== src/Tests/Keys.antt =====
-- Tests of src/keys.cpp and of the text of numbers.
use holesail_cpp.Base.{[], ◌∷◌, Bytes, codes, AreBytes, some, ◌≡◌, refl, arith}
use holesail_cpp.Keys.{z32_encode, z32_decode, from_hex, from_hex_loop, nibble_of}
use holesail_cpp.Keys.Z32.{z32_decode-z32_encode}

abbrev three_bytes : Bytes
three_bytes = 0 ∷ 200 ∷ 255 ∷ []

three_bytes-AreBytes : AreBytes three_bytes
three_bytes-AreBytes = (omega arith, (omega arith, (omega arith, tt)))

z32_decode-z32_encode_example : z32_decode (z32_encode three_bytes) ≡ some three_bytes
z32_decode-z32_encode_example = z32_decode-z32_encode three_bytes three_bytes-AreBytes

abbrev two_bytes : Bytes
two_bytes = 10 ∷ 255 ∷ []

upper_hex : from_hex (codes "0aFf") ≡ some two_bytes
unfolding from_hex from_hex_loop nibble_of
upper_hex = refl
