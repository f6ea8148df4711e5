-- ===== src/Codec/Words.antt =====
-- Big-endian words of k bytes, as `struct.pack` writes and `struct.unpack` reads them.
use native.Mathlib.Nat.{pow-suc}
use blockchain_coin.Shared.{
  ℕ, zero, suc, ◌+◌, ◌-◌, ◌*◌, ◌/◌, ◌%◌, ◌^◌, ◌<◌, ◌≡◌, refl, [], ◌∷◌, ◌++◌, arith, length,
  length-append, ltb, if◌then◌else◌, ℤ, pos, negsuc, Bool, true, ◌∙◌,
}
use blockchain_coin.Text.{Bytes}

-- The k low bytes of n, the highest first.
unfoldable pub be_bytes : ℕ → ℕ → Bytes
be_bytes zero n = []
be_bytes (suc k) n = be_bytes k (n / 256) ++ n % 256 ∷ []

be_from : ℕ → Bytes → ℕ
be_from acc [] = acc
be_from acc (b ∷ bs) = be_from (acc * 256 + b) bs

unfoldable pub be_value : Bytes → ℕ
unfolding be_from
be_value = be_from 0

be_from-append :
    (acc : ℕ) (xs : Bytes) (b : ℕ) → be_from acc (xs ++ b ∷ []) ≡ be_from acc xs * 256 + b
unfolding be_from
be_from-append acc [] b = refl
be_from-append acc (x ∷ xs) b = be_from-append (acc * 256 + x) xs b

div-lt-pow : (k n : ℕ) → n < 256 ^ suc k → n / 256 < 256 ^ k
div-lt-pow k n h = let h' : n < 256 ^ k * 256 = rw (pow-suc) at h in omega arith

-- A number that fits k bytes is read back.
pub be_value-be_bytes : (k n : ℕ) → n < 256 ^ k → be_value (be_bytes k n) ≡ n
unfolding be_value be_bytes
be_value-be_bytes zero n h = omega arith
be_value-be_bytes (suc k) n h =
    be_from-append 0 (be_bytes k (n / 256)) (n % 256)
    ∙ omega (arith, be_value-be_bytes k (n / 256) (div-lt-pow k n h))

pub length-be_bytes : (k n : ℕ) → length (be_bytes k n) ≡ k
unfolding be_bytes
length-be_bytes zero n = refl
length-be_bytes (suc k) n =
    length-append (be_bytes k (n / 256)) (n % 256 ∷ []) ∙ omega (arith, length-be_bytes k (n / 256))

-- The word of 64 bits that stands for a signed integer in range: two's complement.
unfoldable pub word64 : ℤ → ℕ
word64 (pos n) = n
word64 (negsuc n) = 2 ^ 64 - (n + 1)

unfoldable pub signed64 : ℕ → ℤ
signed64 w = if ltb w (2 ^ 63) then pos w else negsuc (2 ^ 64 - w - 1)

-- -2^63 ≤ value < 2^63
abbrev pub fits_int64 : ℤ → Bool
fits_int64 (pos n) = ltb n (2 ^ 63)
fits_int64 (negsuc n) = ltb n (2 ^ 63)

pub signed64-word64 : (v : ℤ) → fits_int64 v ≡ true → signed64 (word64 v) ≡ v
unfolding signed64 word64
signed64-word64 (pos n) h = ground arith
signed64-word64 (negsuc n) h = ground arith

pub word64-lt : (v : ℤ) → fits_int64 v ≡ true → word64 v < 256 ^ 8
unfolding word64
word64-lt (pos n) h = ground arith
word64-lt (negsuc n) h = ground arith
