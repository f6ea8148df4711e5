-- ===== src/Codec/Utf8.antt =====
-- `str.encode("utf-8")` and `bytes.decode("utf-8")`, both strict: surrogates are refused, and so are
-- longer forms than needed, stray bytes and values above 0x10FFFF.
use mathlib.Core.Option
use blockchain_coin.Shared.{
  ℕ, zero, suc, ◌+◌, ◌-◌, ◌*◌, ◌/◌, ◌%◌, ◌≤◌, ◌≡◌, refl, Bool, not, ◌&&◌, Option, none, some, [],
  ◌∷◌, ◌++◌, arith, length, length-append, ltb, leb, if◌then◌else◌, and_then, and_then-eq-some,
}
use blockchain_coin.Text.{Text, Bytes}

is_surrogate : ℕ → Bool
is_surrogate c = leb 0xD800 c && ltb c 0xE000

unfoldable pub encode_char : ℕ → Option Bytes
unfolding is_surrogate
encode_char c =
    if ltb c 0x80
    then some (c ∷ [])
    else if ltb c 0x800
    then some ((0xC0 + c / 64) ∷ (0x80 + c % 64) ∷ [])
    else if ltb c 0x10000
    then if is_surrogate c
      then none
      else some ((0xE0 + c / 4096) ∷ (0x80 + c / 64 % 64) ∷ (0x80 + c % 64) ∷ [])
    else if ltb c 0x110000
    then some
        ((0xF0 + c / 262144) ∷ (0x80 + c / 4096 % 64) ∷ (0x80 + c / 64 % 64) ∷ (0x80 + c % 64) ∷ [])
    else none

unfoldable pub encode : Text → Option Bytes
encode [] = some []
encode (c ∷ t) = and_then (encode_char c) λ bs. and_then (encode t) λ rest. some (bs ++ rest)

is_continuation : ℕ → Bool
is_continuation b = leb 0x80 b && ltb b 0xC0

-- What follows a first byte of two, three or four.
decode_two : ℕ → Bytes → Option (ℕ × Bytes)
unfolding is_continuation
decode_two a (b ∷ bs) = if is_continuation b then some ((a - 0xC0) * 64 + (b - 0x80), bs) else none
decode_two a _ = none

decode_three : ℕ → Bytes → Option (ℕ × Bytes)
unfolding is_continuation is_surrogate
decode_three a (b ∷ c ∷ bs) =
    let v = (a - 0xE0) * 4096 + (b - 0x80) * 64 + (c - 0x80) in
    if is_continuation b && is_continuation c && leb 0x800 v && not (is_surrogate v)
    then some (v, bs)
    else none
decode_three a _ = none

decode_four : ℕ → Bytes → Option (ℕ × Bytes)
unfolding is_continuation
decode_four a (b ∷ c ∷ d ∷ bs) =
    let v = (a - 0xF0) * 262144 + (b - 0x80) * 4096 + (c - 0x80) * 64 + (d - 0x80) in
    if is_continuation b
      && is_continuation c
      && is_continuation d
      && leb 0x10000 v
      && ltb v 0x110000
    then some (v, bs)
    else none
decode_four a _ = none

unfoldable pub decode_char : Bytes → Option (ℕ × Bytes)
unfolding decode_two decode_three decode_four
decode_char [] = none
decode_char (a ∷ bs) =
    if ltb a 0x80
    then some (a, bs)
    else if ltb a 0xC2
    then none
    else if ltb a 0xE0
    then decode_two a bs
    else if ltb a 0xF0
    then decode_three a bs
    else if ltb a 0xF8
    then decode_four a bs
    else none

-- A character takes at least one byte, so the number of bytes is fuel enough.
decode_fuel : ℕ → Bytes → Option Text
decode_fuel f [] = some []
decode_fuel zero (a ∷ bs) = none
decode_fuel (suc f) (a ∷ bs) = elim (decode_char (a ∷ bs)) [
  | none ↦ none
  | some (c, rest) ↦ Option.map (λ t. c ∷ t) (decode_fuel f rest)
]

unfoldable pub decode : Bytes → Option Text
unfolding decode_fuel
decode bs = decode_fuel (length bs) bs

decode_char-encode_char :
    (c : ℕ) (bs rest : Bytes) → encode_char c ≡ some bs → decode_char (bs ++ rest) ≡ some (c, rest)
unfolding encode_char decode_char
decode_char-encode_char c bs rest h = ground arith

encode_char-nonempty :
    (c : ℕ) (bs : Bytes) → encode_char c ≡ some bs → (b : ℕ) × (r : Bytes) × (bs ≡ b ∷ r)
unfolding encode_char
encode_char-nonempty c [] h = absurd (ground arith)
encode_char-nonempty c (b ∷ r) h = (b, r, refl)

-- One character in front of what is left to read.
decode_fuel-cons :
    (f c b : ℕ) (r rest : Bytes) (t : Text)
    → decode_char (b ∷ (r ++ rest)) ≡ some (c, rest)
    → decode_fuel f rest ≡ some t
    → decode_fuel (suc f) ((b ∷ r) ++ rest) ≡ some (c ∷ t)
unfolding decode_fuel
decode_fuel-cons f c b r rest t h k = rw (h, decode_fuel, k)

encode-cons :
    (c : ℕ) (t : Text) (bs : Bytes)
    → encode (c ∷ t) ≡ some bs
    → (cb tb : Bytes) × (encode_char c ≡ some cb) × (encode t ≡ some tb) × (bs ≡ cb ++ tb)
unfolding encode
encode-cons c t bs h =
    let (cb, e, h') = and_then-eq-some (encode_char c) _ h in
    let (tb, e', h'') = and_then-eq-some (encode t) _ h' in (cb, tb, e, e', cc)

decode_fuel-encode :
    (t : Text) (bs : Bytes) (f : ℕ) → encode t ≡ some bs → length bs ≤ f → decode_fuel f bs ≡ some t
unfolding decode_fuel
decode_fuel-encode [] [] f h l = refl
decode_fuel-encode [] (b ∷ bs) f h l = absurd (unfold encode in cc)
decode_fuel-encode (c ∷ t) bs f h l =
    let (cb, tb, e, e', p) = encode-cons c t bs h in
    let (b, r, q) = encode_char-nonempty c cb e in
    let whole : bs ≡ b ∷ (r ++ tb) = cc in
    step f b r tb (rw whole at l) whole (rw q at (decode_char-encode_char c cb tb e))
      (decode_fuel-encode t tb) e'
  where
    step :
        (f b : ℕ) (r tb : Bytes)
        → suc (length (r ++ tb)) ≤ f
        → bs ≡ b ∷ (r ++ tb)
        → decode_char (b ∷ (r ++ tb)) ≡ some (c, tb)
        → ((f : ℕ) → encode t ≡ some tb → length tb ≤ f → decode_fuel f tb ≡ some t)
        → encode t ≡ some tb
        → decode_fuel f bs ≡ some (c ∷ t)
    step zero b r tb l w d ih e' = absurd (omega arith)
    step (suc f) b r tb l w d ih e' =
        rw w (decode_fuel-cons f c b r tb t d (ih f e' (omega (arith, length-append {0} r tb))))

-- Every text that can be encoded is read back.
pub decode-encode : (t : Text) (bs : Bytes) → encode t ≡ some bs → decode bs ≡ some t
unfolding decode
decode-encode t bs h = decode_fuel-encode t bs (length bs) h (omega arith)
