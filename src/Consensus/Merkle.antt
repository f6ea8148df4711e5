-- ===== src/Consensus/Merkle.antt =====
-- `calculate_transaction_root` of blockchaincoin/consensus.py: the Merkle root of the transaction ids.
pub mod Fuel
pub mod Doubling
use blockchain_coin.Shared.{
  ℕ, zero, suc, ◌+◌, ◌-◌, ◌/◌, ◌≤◌, ◌<◌, ◌≡◌, refl, sym, ap, ◌∙◌, Bool, true, false, Option, none,
  some, List, [], ◌∷◌, ◌++◌, map, length, is_empty, length-append, leb, ltb, eqb, if◌then◌else◌,
  Result, ok, err, bind, arith, Option-cases, inl, inr, bind-eq-ok, Bool-cases, Result-cases,
  bind-eq-err, ltb→lt, ◌≢◌,
}
use blockchain_coin.Text.{Text, Bytes}
use blockchain_coin.Failure.{Error, value_error, out_of_fuel}
use blockchain_coin.Codec.Hex.{hex, fromhex}
use blockchain_coin.Crypto.{Primitives, sha256_hex, sha256_hex_text}
use blockchain_coin.Consensus.Types.{Transaction}
use blockchain_coin.Consensus.Encode.{txid}

abbrev pub bytes_fromhex : Text → Result Error Bytes
bytes_fromhex text = elim (fromhex text) [ none ↦ err value_error | some bytes ↦ ok bytes ]

-- `layer[0].hex()`
abbrev pub first_hex : List Bytes → Result Error Text
first_hex [] = err value_error
first_hex (a ∷ rest) = ok (hex a)

module _ ⦃prim : Primitives⦄ where
  -- `bytes.fromhex(sha256_hex(left + right))`
  unfoldable pub parent_hash : Bytes → Bytes → Result Error Bytes
  parent_hash left right = bytes_fromhex (sha256_hex (left ++ right))

  -- One round of the loop: a last hash that stands alone is paired with itself.
  unfoldable pub next_layer : List Bytes → Result Error (List Bytes)
  next_layer [] = ok []
  next_layer (a ∷ []) = bind (parent_hash a a) λ h. ok (h ∷ [])
  next_layer (a ∷ b ∷ rest) = bind (parent_hash a b) λ h. bind (next_layer rest) λ hs. ok (h ∷ hs)

  -- `while len(layer) > 1`; a round halves the layer, so its length is fuel enough.
  unfoldable pub root_loop : ℕ → List Bytes → Result Error Text
  root_loop zero layer = if ltb 1 (length layer) then err out_of_fuel else first_hex layer
  root_loop (suc f) layer =
      let more = bind (next_layer layer) (root_loop f) in
      if ltb 1 (length layer) then more else first_hex layer

  -- `bytes.fromhex(transaction.txid)`
  unfoldable pub leaf : Transaction → Result Error Bytes
  leaf t = bind (txid t) bytes_fromhex

  unfoldable pub leaves : List Transaction → Result Error (List Bytes)
  leaves [] = ok []
  leaves (t ∷ ts) = bind (leaf t) λ a. bind (leaves ts) λ rest. ok (a ∷ rest)

  unfoldable pub calculate_transaction_root : List Transaction → Result Error Text
  calculate_transaction_root transactions =
      if is_empty transactions
      then sha256_hex_text []
      else bind (leaves transactions) λ layer. root_loop (length layer) layer
