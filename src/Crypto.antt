-- ===== src/Crypto.antt =====
-- Addresses, public keys and signatures (blockchaincoin/crypto.py). SHA-256, URL-safe base64 and
-- Ed25519 come from outside the repository, and are operations of the parameter `Primitives`.
use blockchain_coin.Shared.{
  ℕ, ◌-◌, ◌%◌, ◌<◌, ◌≡◌, Bool, true, false, not, ◌&&◌, ◌||◌, Option, none, some, [], ◌∷◌, ◌++◌,
  length, take, drop, replicate, and_then, leb, ltb, eqb, if◌then◌else◌, Result, ok, err, bind, All,
}
use blockchain_coin.Text.{Text, Bytes, codes, starts_with, text_eq}
use blockchain_coin.Failure.{Error, unicode_encode_error}
use blockchain_coin.Codec.Hex.{hex}
use blockchain_coin.Codec.Utf8

-- `sha256` is `hashlib.sha256(data).digest()`; `urlsafe_b64decode` is Python's, `none` where it
-- raises a ValueError; `ed25519_verify key signature message` says whether `from_public_bytes`
-- takes the key and `verify` the signature.
pub record Primitives : Type 0 where
  pub sha256 : Bytes → Bytes
  pub urlsafe_b64decode : Bytes → Option Bytes
  pub ed25519_verify : Bytes → Bytes → Bytes → Bool

-- What is documented of SHA-256: a digest is 32 bytes.
pub record IsSha256 (prim : Primitives) : Type 0 where
  pub digest_length : (data_bytes : Bytes) → length (prim.sha256 data_bytes) ≡ 32
  pub digest_bytes : (data_bytes : Bytes) → All (λ b. b < 256) (prim.sha256 data_bytes)

abbrev pub address_prefix : Text
address_prefix = codes "bcc_"

is_address_char : ℕ → Bool
is_address_char c = (leb b'0' c && leb c b'9') || (leb b'a' c && leb c b'f')

abbrev pub all_chars : (ℕ → Bool) → Text → Bool
all_chars p [] = true
all_chars p (c ∷ t) = p c && all_chars p t

unfoldable pub is_valid_address : Text → Bool
unfolding is_address_char
is_valid_address address =
    let suffix = drop (length address_prefix) address in
    if not (starts_with address address_prefix)
    then false
    else eqb (length suffix) 40 && all_chars is_address_char suffix

pub record PublicKey : Type 0 where
  pub algorithm : Text
  pub key : Text

-- `text.encode("ascii")`
unfoldable pub encode_ascii : Text → Option Bytes
encode_ascii text = if all_chars (λ c. ltb c 128) text then some text else none

module _ ⦃prim : Primitives⦄ where
  -- `sha256_hex` of bytes
  unfoldable pub sha256_hex : Bytes → Text
  sha256_hex bytes = hex (prim.sha256 bytes)

  -- `sha256_hex` of a text
  unfoldable pub sha256_hex_text : Text → Result Error Text
  unfolding sha256_hex
  sha256_hex_text text = elim (Utf8.encode text) [
    | none ↦ err unicode_encode_error
    | some bytes ↦ ok (sha256_hex bytes)
  ]

  unfoldable pub b64decode : Text → Option Bytes
  b64decode text =
      let padding = replicate ((4 - length text % 4) % 4) b'=' in
      and_then (encode_ascii (text ++ padding)) prim.urlsafe_b64decode

  -- `PublicKey.address`
  unfoldable pub key_address : PublicKey → Result Error Text
  key_address public_key =
      bind (sha256_hex_text public_key.key) λ digest. ok (address_prefix ++ take 40 digest)

  -- `verify_signature`, with `PublicKey.material` written into it: every failure on the way is an
  -- InvalidSignature or a ValueError, and gives False.
  unfoldable pub verify_signature : PublicKey → Text → Text → Bool
  verify_signature public_key message signature =
      let verified = and_then (b64decode public_key.key) λ key.
        and_then (b64decode signature)
          λ raw. and_then (Utf8.encode message) λ bytes. some (prim.ed25519_verify key raw bytes) in
      if text_eq public_key.algorithm (codes "ed25519")
      then elim verified [ none ↦ false | some v ↦ v ]
      else false
