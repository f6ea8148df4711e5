-- ===== src/Codec/Hex.antt =====
-- `bytes.hex` and `bytes.fromhex`.
use mathlib.Core.Option
use blockchain_coin.Shared.{
  ℕ, ◌+◌, ◌-◌, ◌*◌, ◌/◌, ◌%◌, ◌<◌, ◌≡◌, refl, Bool, false, ◌&&◌, ◌||◌, Option, none, some, [], ◌∷◌,
  arith, length, and_then, ltb, leb, eqb, if◌then◌else◌, All,
}
use blockchain_coin.Text.{Text, Bytes}

unfoldable pub hex_digit : ℕ → ℕ
hex_digit d = if ltb d 10 then b'0' + d else b'a' + (d - 10)

-- `bytes.hex()`: two lowercase digits for each byte.
unfoldable pub hex : Bytes → Text
hex [] = []
hex (b ∷ bs) = hex_digit (b / 16) ∷ hex_digit (b % 16) ∷ hex bs

unfoldable pub digit_value : ℕ → Option ℕ
digit_value c =
    if leb b'0' c && leb c b'9'
    then some (c - b'0')
    else if leb b'a' c && leb c b'f'
    then some (c - b'a' + 10)
    else if leb b'A' c && leb c b'F'
    then some (c - b'A' + 10)
    else none

unfoldable pub is_space : ℕ → Bool
is_space c = eqb c 32 || (leb 9 c && leb c 13)

-- `bytes.fromhex(text)`: pairs of digits of either case, with white space allowed between pairs.
unfoldable pub fromhex : Text → Option Bytes
fromhex [] = some []
fromhex (c ∷ []) = if is_space c then some [] else none
fromhex (c ∷ d ∷ t) =
    let skipped = fromhex (d ∷ t) in
    let pair =
      and_then (digit_value c)
        λ x. and_then (digit_value d) λ y. Option.map (λ bs. (x * 16 + y) ∷ bs) (fromhex t) in
    if is_space c then skipped else pair

digit_value-hex_digit : (d : ℕ) → d < 16 → digit_value (hex_digit d) ≡ some d
unfolding digit_value hex_digit
digit_value-hex_digit d h = ground arith

is_space-hex_digit : (d : ℕ) → d < 16 → is_space (hex_digit d) ≡ false
unfolding is_space hex_digit
is_space-hex_digit d h = ground arith

-- What was written in hexadecimal is read back.
pub fromhex-hex : (bs : Bytes) → All (λ b. b < 256) bs → fromhex (hex bs) ≡ some bs
unfolding fromhex hex
fromhex-hex [] h = refl
fromhex-hex (b ∷ bs) h =
    rw
      (
        fromhex-hex bs h.1,
        digit_value-hex_digit (b / 16) (omega arith),
        digit_value-hex_digit (b % 16) (omega arith),
        is_space-hex_digit (b / 16) (omega arith),
      )
      (ground arith)

pub length-hex : (bs : Bytes) → length (hex bs) ≡ 2 * length bs
unfolding hex
length-hex [] = refl
length-hex (b ∷ bs) = omega (arith, length-hex bs)
