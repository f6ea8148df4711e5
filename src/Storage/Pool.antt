-- ===== src/Storage/Pool.antt =====
-- `SQLiteMempoolStore` of blockchaincoin/storage.py: the encoded transactions by id.
use blockchain_coin.Shared.{
  ℕ, true, List, [], ◌∷◌, if◌then◌else◌, length, Result, ok, err, bind, Dict, contains, insert,
}
use blockchain_coin.Text.{Text, text_lt, text_equality}
use blockchain_coin.Failure.{Error}
use blockchain_coin.Crypto.{Primitives}
use blockchain_coin.Codec.Hex.{hex}
use blockchain_coin.Consensus.Types.{Transaction}
use blockchain_coin.Consensus.Encode.{transaction_bytes, txid}
use blockchain_coin.Consensus.Decode.{transaction_from_bytes}
use blockchain_coin.Consensus.Merkle.{bytes_fromhex}

-- What the store raises: sqlite3's IntegrityError, and what the codec raises.
pub data PoolError : Type 0 where
  duplicate_row : PoolError
  codec_raises : Error → PoolError

abbrev pub MempoolStore : Type 0
MempoolStore = Dict Text Text

abbrev pub from_codec : {A : Type 0} → Result Error A → Result PoolError A
from_codec (ok a) = ok a
from_codec (err e) = err (codec_raises e)

-- `_encode`
unfoldable pub encode_row : Transaction → Result Error Text
encode_row t = bind (transaction_bytes true t) λ raw. ok (hex raw)

-- `_decode`
unfoldable pub decode_row : Text → Result Error Transaction
decode_row payload = bind (bytes_fromhex payload) (transaction_from_bytes true)

unfoldable pub insert_row : Text × Text → List (Text × Text) → List (Text × Text)
insert_row r [] = r ∷ []
insert_row r (q ∷ qs) =
    let rest = insert_row r qs in if text_lt r.0 q.0 then r ∷ q ∷ qs else q ∷ rest

-- `ORDER BY txid ASC`
unfoldable pub sort_rows : List (Text × Text) → List (Text × Text)
sort_rows [] = []
sort_rows (r ∷ rs) = insert_row r (sort_rows rs)

unfoldable pub decode_rows : List (Text × Text) → Result Error (List Transaction)
decode_rows [] = ok []
decode_rows (r ∷ rs) = bind (decode_row r.1) λ t. bind (decode_rows rs) λ ts. ok (t ∷ ts)

unfoldable pub transactions : MempoolStore → Result Error (List Transaction)
transactions table = decode_rows (sort_rows table)

unfoldable pub pool_count : MempoolStore → ℕ
pool_count table = length table

-- `executemany` of the INSERT, one row after the other
unfoldable pub insert_rows : List (Text × Text) → MempoolStore → Result PoolError MempoolStore
insert_rows [] table = ok table
insert_rows (r ∷ rs) table =
    if contains r.0 table then err duplicate_row else insert_rows rs (insert r.0 r.1 table)

module _ ⦃prim : Primitives⦄ where
  -- `(transaction.txid, self._encode(transaction))`
  unfoldable pub row_of : Transaction → Result Error (Text × Text)
  row_of t = bind (txid t) λ id. bind (encode_row t) λ payload. ok (id, payload)

  unfoldable pub rows_of : List Transaction → Result Error (List (Text × Text))
  rows_of [] = ok []
  rows_of (t ∷ ts) = bind (row_of t) λ r. bind (rows_of ts) λ rs. ok (r ∷ rs)

  -- `add_transaction`: INSERT OR IGNORE
  unfoldable pub add_transaction : Transaction → MempoolStore → Result PoolError MempoolStore
  add_transaction t table =
      bind (from_codec (row_of t))
        λ r. ok (if contains r.0 table then table else insert r.0 r.1 table)

  -- `replace_all`: where it raises, the connection rolls back and the table is the old one.
  unfoldable pub replace_all : List Transaction → Result PoolError MempoolStore
  replace_all ts = bind (from_codec (rows_of ts)) λ rows. insert_rows rows []
