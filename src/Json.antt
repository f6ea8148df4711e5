-- ===== src/Json.antt =====
-- `canonical_json` of blockchaincoin/crypto.py: `json.dumps` with sorted keys, no spaces and only
-- ASCII characters, over the values that transactions and messages hold.
use blockchain_coin.Shared.{
  ℕ, zero, ◌≡◌, refl, suc, ◌+◌, ◌-◌, ◌/◌, ◌%◌, Bool, true, false, ◌&&◌, ◌||◌, List, [], ◌∷◌, ◌++◌,
  map, leb, ltb, eqb, if◌then◌else◌, ℤ, pos, negsuc,
}
use blockchain_coin.Text.{Text, codes, join, text_lt}
use blockchain_coin.Codec.Hex.{hex_digit}

mutual
  pub data Json : Type 0 where
    null : Json
    bool : Bool → Json
    int : ℤ → Json
    str : Text → Json
    arr : Items → Json
    obj : Fields → Json

  pub data Items : Type 0 where
    nil : Items
    cons : Json → Items → Items

  pub data Fields : Type 0 where
    end : Fields
    field : Text → Json → Fields → Fields

unfoldable pub items_of : List Json → Items
items_of [] = nil
items_of (x ∷ xs) = cons x (items_of xs)

-- The digits of n in front of `rest`; n + 1 rounds are enough.
decimal_from : ℕ → ℕ → Text → Text
decimal_from zero n rest = rest
decimal_from (suc f) n rest =
    let more = decimal_from f (n / 10) ((b'0' + n % 10) ∷ rest) in
    if ltb n 10 then (b'0' + n) ∷ rest else more

unfoldable pub decimal : ℤ → Text
unfolding decimal_from
decimal (pos n) = decimal_from (n + 1) n []
decimal (negsuc n) = b'-' ∷ decimal_from (n + 2) (n + 1) []

-- `\uXXXX`
unicode_escape : ℕ → Text
unfolding hex_digit
unicode_escape c =
    b'\\'
    ∷ b'u'
    ∷ hex_digit (c / 4096)
    ∷ hex_digit (c / 256 % 16)
    ∷ hex_digit (c / 16 % 16)
    ∷ hex_digit (c % 16)
    ∷ []

escape_char : ℕ → Text
unfolding unicode_escape
escape_char c =
    if eqb c 34 || eqb c 92
    then 92 ∷ c ∷ []
    else if eqb c 10
    then codes "\\n"
    else if eqb c 13
    then codes "\\r"
    else if eqb c 9
    then codes "\\t"
    else if eqb c 8
    then codes "\\b"
    else if eqb c 12
    then codes "\\f"
    else if leb 32 c && leb c 126
    then c ∷ []
    else if ltb c 0x10000
    then unicode_escape c
    else unicode_escape (0xD800 + (c - 0x10000) / 1024)
      ++ unicode_escape (0xDC00 + (c - 0x10000) % 1024)

unfoldable pub escape : Text → Text
unfolding escape_char
escape [] = []
escape (c ∷ t) = escape_char c ++ escape t

quoted : Text → Text
unfolding escape
quoted t = 34 ∷ (escape t ++ 34 ∷ [])

-- A field goes before the first whose key is greater.
insert_field : Text × Text → List (Text × Text) → List (Text × Text)
insert_field e [] = e ∷ []
insert_field e (f ∷ fs) = if text_lt e.0 f.0 then e ∷ f ∷ fs else f ∷ insert_field e fs

sort_fields : List (Text × Text) → List (Text × Text)
unfolding insert_field
sort_fields [] = []
sort_fields (e ∷ fs) = insert_field e (sort_fields fs)

pair_text : Text × Text → Text
unfolding quoted
pair_text (k, v) = quoted k ++ 58 ∷ v

-- The printed values of an array, and the printed fields of an object before they are sorted.
mutual
  unfolding decimal quoted pair_text sort_fields

  canonical : Json → Text
  canonical null = codes "null"
  canonical (bool true) = codes "true"
  canonical (bool false) = codes "false"
  canonical (int n) = decimal n
  canonical (str t) = quoted t
  canonical (arr xs) = 91 ∷ (join (44 ∷ []) (canonical_items xs) ++ 93 ∷ [])
  canonical (obj fs) =
      123 ∷ (join (44 ∷ []) (map pair_text (sort_fields (canonical_fields fs))) ++ 125 ∷ [])

  canonical_items : Items → List Text
  canonical_items nil = []
  canonical_items (cons x xs) = canonical x ∷ canonical_items xs

  canonical_fields : Fields → List (Text × Text)
  canonical_fields end = []
  canonical_fields (field k v fs) = (k, canonical v) ∷ canonical_fields fs

unfoldable pub canonical_json : Json → Text
unfolding canonical
canonical_json value = canonical value

sorted_example :
    canonical_json
      (obj (field (codes "b") (int (negsuc 11)) (field (codes "a") (arr (cons null nil)) end)))
    ≡ codes "{\"a\":[null],\"b\":-12}"
unfolding canonical_json join text_lt
sorted_example = refl
