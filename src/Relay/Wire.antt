-- ===== src/Relay/Wire.antt =====
-- `binary.BigEndian.Uint32`, and the frame of the SSH agent protocol: four bytes of length and the
-- payload. Bytes are numbers below 256.
use shell_watch.Base.{
  ℕ, ◌+◌, ◌*◌, ◌/◌, ◌%◌, ◌≤◌, ◌<◌, ◌≡◌, refl, ap, List, [], ◌∷◌, ◌++◌, length, take, drop, arith,
}

abbrev pub two_32 : ℕ
two_32 = 4294967296

-- Of four bytes; fewer do not occur.
unfoldable pub be32 : List ℕ → ℕ
be32 (a ∷ b ∷ c ∷ d ∷ _) = ((a * 256 + b) * 256 + c) * 256 + d
be32 _ = 0

abbrev pub AreBytes : List ℕ → Type 0
AreBytes [] = Unit
AreBytes (x ∷ xs) = (x < 256) × AreBytes xs

-- The frame that carries a payload.
unfoldable pub encode : List ℕ → List ℕ
encode p =
    (length p / 16777216 % 256)
    ∷ (length p / 65536 % 256)
    ∷ (length p / 256 % 256)
    ∷ (length p % 256)
    ∷ p

pub be32-encode : (p rest : List ℕ) → length p < two_32 → be32 (encode p ++ rest) ≡ length p
unfolding be32 encode
be32-encode p rest h = omega arith

pub be32-append : (b p : List ℕ) → 4 ≤ length b → be32 (b ++ p) ≡ be32 b
unfolding be32
be32-append (x ∷ y ∷ z ∷ w ∷ b) p h = omega arith
be32-append (x ∷ y ∷ z ∷ []) p h = absurd (omega arith)
be32-append (x ∷ y ∷ []) p h = absurd (omega arith)
be32-append (x ∷ []) p h = absurd (omega arith)
be32-append [] p h = absurd (omega arith)

pub be32-take : (b : List ℕ) → be32 (take 4 b) ≡ be32 b
unfolding be32
be32-take (x ∷ y ∷ z ∷ w ∷ b) = omega arith
be32-take (x ∷ y ∷ z ∷ []) = omega arith
be32-take (x ∷ y ∷ []) = omega arith
be32-take (x ∷ []) = omega arith
be32-take [] = omega arith

pub length-encode : (p : List ℕ) → length (encode p) ≡ length p + 4
unfolding encode
length-encode p = omega arith

four_more : (p : List ℕ) → 4 + length p ≡ length (encode p)
four_more p = omega (arith, length-encode p)

pub take-length : (p rest : List ℕ) → take (length p) (p ++ rest) ≡ p
take-length [] rest = refl
take-length (x ∷ p) rest = ap (◌∷◌ x) (take-length p rest)

pub drop-length : (p rest : List ℕ) → drop (length p) (p ++ rest) ≡ rest
drop-length [] rest = refl
drop-length (x ∷ p) rest = drop-length p rest

pub take-encode : (p rest : List ℕ) → take (4 + length p) (encode p ++ rest) ≡ encode p
take-encode p rest = rw (four_more p) (take-length (encode p) rest)

pub drop-encode : (p rest : List ℕ) → drop (4 + length p) (encode p ++ rest) ≡ rest
drop-encode p rest = rw (four_more p) (drop-length (encode p) rest)
