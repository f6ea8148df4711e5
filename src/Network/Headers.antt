-- ===== src/Network/Headers.antt =====
-- The block headers of blockchaincoin/network.py: what a payload of headers must hold, and what a chain of
-- headers.
use blockchain_coin.Shared.{
  if◌then◌else◌, ℕ, Bool, false, not, ◌&&◌, ◌||◌, Option, none, some, List, [], ◌∷◌, length,
  is_empty, ltb, leb, eqb, ℤ, pos, ◌+ℤ◌, ltb_ℤ, eqb_ℤ, Result, ok, err, bind, raise_if,
}
use blockchain_coin.Text.{Text, text_eq, starts_with}
use blockchain_coin.Failure.{Error}
use blockchain_coin.Crypto.{Primitives, all_chars}
use blockchain_coin.Consensus.Types.{Block}
use blockchain_coin.Consensus.Encode.{block_hash}
use blockchain_coin.Consensus.Merkle.{calculate_transaction_root}
use blockchain_coin.Consensus.Blocks.{work_target}
use blockchain_coin.Network.Payloads.{
  BlockHeader, NetworkError, RawHeader, anchor_invalid, hash_raises, header_difficulty,
  header_fields, header_hash, header_height, header_is_malformed, header_malformed,
  header_previous_hash, header_root, header_unreadable, header_version, headers_disconnected,
  height_not_sequential, no_header, proof_of_work_invalid, too_many_headers,
}

infixl 5 ◌>>=◌ ◌>>◌
abbrev ◌>>=◌ : {E A B : Type 0} → Result E A → (A → Result E B) → Result E B
◌>>=◌ = bind

abbrev ◌>>◌ : {E A B : Type 0} → Result E A → Result E B → Result E B
m >> k = bind m λ _. k

is_hash_char : ℕ → Bool
is_hash_char c = (leb b'0' c && leb c b'9') || (leb b'a' c && leb c b'f')

-- `_is_hash`, of a text
unfoldable pub is_hash : Text → Bool
unfolding is_hash_char
is_hash value = eqb (length value) 64 && all_chars is_hash_char value

-- `prior_hash is not None and header.previous_hash != prior_hash`
abbrev pub is_unlinked : Option Text → BlockHeader → Bool
is_unlinked none header = false
is_unlinked (some prior) header = not (text_eq header.previous_hash prior)

-- `prior_height is not None and header.height != prior_height + 1`
abbrev pub is_out_of_sequence : Option ℤ → BlockHeader → Bool
is_out_of_sequence none header = false
is_out_of_sequence (some prior) header = not (eqb_ℤ header.height (prior +ℤ pos 1))

-- The anchor's check
abbrev pub is_bad_anchor : Option Text → Bool
is_bad_anchor none = false
is_bad_anchor (some hash) = not (is_hash hash)

-- `BlockHeader.from_block`
unfoldable pub header_from_block : Block → BlockHeader
header_from_block b = record {
  height = b.height;
  previous_hash = b.previous_hash;
  transaction_root = b.transaction_root;
  difficulty = b.difficulty;
  timestamp = b.timestamp;
  nonce = b.nonce;
  version = b.version;
}

module _ ⦃prim : Primitives⦄ where
  -- The block without transactions whose hash is the header's
  abbrev pub header_block : BlockHeader → Text → Block
  header_block h root = record {
    height = h.height;
    previous_hash = h.previous_hash;
    transactions = [];
    difficulty = h.difficulty;
    timestamp = h.timestamp;
    nonce = h.nonce;
    transaction_root = root;
    version = h.version;
  }

  -- Its root, which `__post_init__` computes where it is empty
  unfoldable pub root_of_header : BlockHeader → Result Error Text
  root_of_header h =
      if is_empty h.transaction_root then calculate_transaction_root [] else ok h.transaction_root

  -- `BlockHeader.hash`
  unfoldable pub hash_of_header : BlockHeader → Result NetworkError Text
  hash_of_header h = elim (root_of_header h >>= λ root. block_hash (header_block h root)) [
    | err e ↦ err (hash_raises e)
    | ok hash ↦ ok hash
  ]

  -- `header_hash is not None and header_hash != header.hash`
  unfoldable pub check_claim : BlockHeader → Option Text → Result NetworkError (Unit {0})
  check_claim h none = ok tt
  check_claim h (some claimed) =
      hash_of_header h >>= λ hash. raise_if (not (text_eq claimed hash)) header_hash

  -- `BlockHeader.from_dict`
  unfoldable pub check_header_payload : BlockHeader → Option Text → Result NetworkError (Unit {0})
  check_header_payload h claimed = do
    raise_if (ltb_ℤ h.height (pos 0)) header_height
    raise_if (ltb_ℤ h.difficulty (pos 0)) header_difficulty
    raise_if (not (eqb_ℤ h.version (pos 1))) header_version
    raise_if (not (is_hash h.previous_hash)) header_previous_hash
    raise_if (not (is_hash h.transaction_root)) header_root
    check_claim h claimed

  -- `BlockHeader.from_dict(dict(header))`
  unfoldable pub header_from_raw : RawHeader → Result NetworkError BlockHeader
  header_from_raw (header_fields h claimed) = check_header_payload h claimed >> ok h
  header_from_raw header_malformed = err header_is_malformed
  header_from_raw no_header = err header_unreadable

  unfoldable pub headers_of : List RawHeader → Result NetworkError (List BlockHeader)
  headers_of [] = ok []
  headers_of (raw ∷ raws) = header_from_raw raw >>= λ h. headers_of raws >>= λ rest. ok (h ∷ rest)

  -- The loop of `validate_header_chain`
  unfoldable pub check_chain :
      Option Text → Option ℤ → List BlockHeader → Result NetworkError (Unit {0})
  check_chain prior_hash prior_height [] = ok tt
  check_chain prior_hash prior_height (h ∷ hs) = do
    hash ← hash_of_header h
    raise_if (not (starts_with hash (work_target h.difficulty))) proof_of_work_invalid
    raise_if (is_unlinked prior_hash h) headers_disconnected
    raise_if (is_out_of_sequence prior_height h) height_not_sequential
    check_chain (some hash) (some h.height) hs

  unfoldable pub validate_header_chain :
      List BlockHeader → Option Text → Result NetworkError (List BlockHeader)
  validate_header_chain hs previous_hash = do
    raise_if (is_bad_anchor previous_hash) anchor_invalid
    check_chain previous_hash none hs
    ok hs

  -- `headers_from_payload`
  unfoldable pub headers_from_payload : List RawHeader → Result NetworkError (List BlockHeader)
  headers_from_payload payload = do
    raise_if (ltb 2_000 (length payload)) too_many_headers
    hs ← headers_of payload
    validate_header_chain hs none
