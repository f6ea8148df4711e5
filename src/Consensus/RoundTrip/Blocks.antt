-- ===== src/Consensus/RoundTrip/Blocks.antt =====
-- Blocks are read back from their bytes, each transaction in its own frame
-- (`ConsensusBlock.to_bytes` and `from_bytes` in blockchaincoin/consensus.py).
use blockchain_coin.Shared.{
  ◌^◌, ◌<◌, ◌≡◌, true, List, [], ◌∷◌, append-nil, subst, ok, All, bind-eq-ok,
}
use blockchain_coin.Text.{Bytes, text_equality}
use blockchain_coin.Codec.Reader.{pure}
use blockchain_coin.Codec.Reads.{Reads, Reads-pure, Reads-bind}
use blockchain_coin.Codec.Fields.{encode_bytes-Reads, IsLowerHex}
use blockchain_coin.Consensus.Types.{Transaction, Block}
use blockchain_coin.Consensus.Encode.{transaction_bytes, framed_transaction}
use blockchain_coin.Consensus.Decode.{framed_from_reader}
use blockchain_coin.Consensus.RoundTrip.{IsCanonical, transaction_from_bytes-transaction_bytes}

-- A block that the decoder could have made.
pub record IsCanonicalBlock (b : Block) : Type 0 where
  pub parent : IsLowerHex b.previous_hash
  pub root : IsLowerHex b.transaction_root
  pub stamp : b.timestamp < 2 ^ 64
  pub members : All IsCanonical b.transactions

framed-Reads :
    (t : Transaction) {bs : Bytes}
    → framed_transaction t ≡ ok bs
    → IsCanonical t
    → Reads framed_from_reader bs t
unfolding framed_transaction framed_from_reader
framed-Reads t {bs} h canonical =
    let (raw, e, h') = bind-eq-ok (transaction_bytes true t) _ h in
    let back = transaction_from_bytes-transaction_bytes t canonical e in
    subst (λ ys. Reads framed_from_reader ys t) (append-nil bs)
      (Reads-bind _ (encode_bytes-Reads raw h') (rw back (unfold pure in Reads-pure t)))

framed-All-Reads :
    (ts : List Transaction)
    → All IsCanonical ts
    → All (λ t. (raw : Bytes) → framed_transaction t ≡ ok raw → Reads framed_from_reader raw t) ts
framed-All-Reads [] h = tt
framed-All-Reads (t ∷ ts) h = ((λ raw e. framed-Reads t e h.0), framed-All-Reads ts h.1)
