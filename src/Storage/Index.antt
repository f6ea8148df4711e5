-- ===== src/Storage/Index.antt =====
-- `SQLiteUTXOIndex` of blockchaincoin/storage.py: the unspent outputs at the active tip and at each
-- indexed tip, and the spends of each tip's chain.
use blockchain_coin.Shared.{
  ℕ, ◌+◌, Bool, true, false, Option, none, some, List, [], ◌∷◌, ◌++◌, if◌then◌else◌, is_empty,
  length, Result, ok, err, bind, raise_if, ◌==◌, ◌&&◌, not,
}
use blockchain_coin.Text.{Text, text_eq}
use blockchain_coin.Codec.Words.{fits_int64}
use blockchain_coin.Failure.{Error}
use blockchain_coin.Crypto.{Primitives}
use blockchain_coin.Consensus.Types.{
  OutPoint, TxInput, Transaction, Block, outpoint_equality, is_coinbase,
}
use blockchain_coin.Consensus.Encode.{txid}
use blockchain_coin.Consensus.Utxo.{
  Utxo, UtxoSet, new_set, entries, outpoint_lt, sort_entries, owned_by,
}

pub record IndexedSpend : Type 0 where
  pub outpoint : OutPoint
  pub spending_txid : Text
  pub input_index : ℕ

-- The row `active_tip` of `metadata`, and the tables `utxos`, `utxo_snapshots` and `spent_outpoints`.
pub record UtxoIndex : Type 0 where
  pub active_tip : Option Text
  pub utxos : List Utxo
  pub snapshots : List (Text × Utxo)
  pub spends : List (Text × IndexedSpend)

-- sqlite3's IntegrityError, the OverflowError of an integer outside 64 bits, and what computing an id
-- raises.
pub data IndexError : Type 0 where
  duplicate_spend integer_too_large : IndexError
  id_raises : Error → IndexError

abbrev pub empty_index : UtxoIndex
empty_index = record { active_tip = none; utxos = []; snapshots = []; spends = [] }

module _ {A : Type 0} where
  -- `WHERE tip_hash = ?`
  unfoldable pub rows_at : Text → List (Text × A) → List A
  rows_at tip [] = []
  rows_at tip (r ∷ rs) = let rest = rows_at tip rs in if text_eq r.0 tip then r.1 ∷ rest else rest

  -- `DELETE ... WHERE tip_hash = ?`
  unfoldable pub delete_tip : Text → List (Text × A) → List (Text × A)
  delete_tip tip [] = []
  delete_tip tip (r ∷ rs) =
      let rest = delete_tip tip rs in if text_eq r.0 tip then rest else r ∷ rest

  -- The rows of one tip, in front of which the column is written.
  unfoldable pub at_tip : Text → List A → List (Text × A)
  at_tip tip [] = []
  at_tip tip (a ∷ rest) = (tip, a) ∷ at_tip tip rest

-- SQLite takes the integers of the rows.
unfoldable pub all_fit : List Utxo → Bool
all_fit [] = true
all_fit (e ∷ es) = fits_int64 e.outpoint.index && (fits_int64 e.output.amount && all_fit es)

-- `_save_tip_snapshot` and `save_tip_snapshot`: the entries of a set repeat no key. Where an integer does
-- not fit, the transaction is rolled back.
unfoldable pub save_tip_snapshot : Text → UtxoSet → UtxoIndex → Result IndexError UtxoIndex
save_tip_snapshot tip utxos index =
    if all_fit (entries utxos)
    then ok
        (record index { snapshots = delete_tip tip index.snapshots ++ at_tip tip (entries utxos) })
    else err integer_too_large

unfoldable pub save_snapshot : Text → UtxoSet → UtxoIndex → Result IndexError UtxoIndex
save_snapshot tip utxos index =
    bind (save_tip_snapshot tip utxos index)
      λ saved. ok (record saved { active_tip = some tip; utxos = entries utxos })

-- A set from the rows in the order of `txid` and `output_index`
unfoldable pub set_of_rows : List Utxo → Result Error UtxoSet
set_of_rows rows = new_set (sort_entries rows)

abbrev pub found : UtxoSet → Result Error (Option UtxoSet)
found utxos = ok (some utxos)

unfoldable pub load_tip_snapshot : Text → UtxoIndex → Result Error (Option UtxoSet)
load_tip_snapshot tip index =
    let rows = rows_at tip index.snapshots in
    if is_empty rows then ok none else bind (set_of_rows rows) found

-- The second part of `load_snapshot`, from the active tables.
unfoldable pub load_active : Text → UtxoIndex → Result Error (Option UtxoSet)
load_active expected_tip index = elim index.active_tip [
  | none ↦ ok none
  | some tip ↦ if text_eq tip expected_tip then bind (set_of_rows index.utxos) found else ok none
]

unfoldable pub load_snapshot : Text → UtxoIndex → Result Error (Option UtxoSet)
load_snapshot expected_tip index =
    bind (load_tip_snapshot expected_tip index)
      λ indexed. elim indexed [ some utxos ↦ found utxos | none ↦ load_active expected_tip index ]

abbrev pub utxo_count : UtxoIndex → ℕ
utxo_count index = length index.utxos

abbrev pub tip_count : Text → UtxoIndex → ℕ
tip_count tip index = length (rows_at tip index.snapshots)

abbrev pub spent_count : Text → UtxoIndex → ℕ
spent_count tip index = length (rows_at tip index.spends)

-- The spends of one transaction's inputs from number `input_index` on
unfoldable pub spends_of_inputs : Text → ℕ → List TxInput → List IndexedSpend
spends_of_inputs id input_index [] = []
spends_of_inputs id input_index (i ∷ is) =
    let spend : IndexedSpend = record {
      outpoint = i.previous_output;
      spending_txid = id;
      input_index = input_index;
    } in
    spend ∷ spends_of_inputs id (input_index + 1) is

unfoldable pub insert_spend : IndexedSpend → List IndexedSpend → List IndexedSpend
insert_spend s [] = s ∷ []
insert_spend s (q ∷ qs) =
    let rest = insert_spend s qs in
    if outpoint_lt s.outpoint q.outpoint then s ∷ q ∷ qs else q ∷ rest

unfoldable pub sort_spends : List IndexedSpend → List IndexedSpend
sort_spends [] = []
sort_spends (s ∷ ss) = insert_spend s (sort_spends ss)

unfoldable pub load_tip_spends : Text → UtxoIndex → List IndexedSpend
load_tip_spends tip index = sort_spends (rows_at tip index.spends)

unfoldable pub find_spend : OutPoint → List IndexedSpend → Option IndexedSpend
find_spend p [] = none
find_spend p (s ∷ ss) = if s.outpoint == p then some s else find_spend p ss

unfoldable pub spent_by_tip : Text → OutPoint → UtxoIndex → Result IndexError (Option IndexedSpend)
spent_by_tip tip p index =
    if fits_int64 p.index
    then ok (find_spend p (rows_at tip index.spends))
    else err integer_too_large

unfoldable pub is_spent_at_tip : Text → OutPoint → UtxoIndex → Result IndexError Bool
is_spent_at_tip tip p index =
    bind (spent_by_tip tip p index) λ spend. elim spend [ none ↦ ok false | some s ↦ ok true ]

unfoldable pub utxos_for_address_at_tip : Text → Text → UtxoIndex → List Utxo
utxos_for_address_at_tip tip address index =
    sort_entries (owned_by address (rows_at tip index.snapshots))

-- The INSERT of one tip's spends after the rows that are there: no outpoint may stand twice.
unfoldable pub insert_spends :
    List IndexedSpend → List IndexedSpend → Result IndexError (List IndexedSpend)
insert_spends rows [] = ok rows
insert_spends rows (s ∷ ss) =
    bind (raise_if (not (fits_int64 s.outpoint.index)) integer_too_large) λ _.
      elim (find_spend s.outpoint rows) [
        | some old ↦ err duplicate_spend
        | none ↦ insert_spends (rows ++ s ∷ []) ss
      ]

module _ ⦃prim : Primitives⦄ where
  unfoldable pub spends_of_transactions : List Transaction → Result IndexError (List IndexedSpend)
  spends_of_transactions [] = ok []
  spends_of_transactions (t ∷ ts) =
      let rest = spends_of_transactions ts in
      if is_coinbase t then rest else elim (txid t) [
        | err e ↦ err (id_raises e)
        | ok id ↦ bind rest λ spends. ok (spends_of_inputs id 0 t.inputs ++ spends)
      ]

  unfoldable pub spends_of_blocks : List Block → Result IndexError (List IndexedSpend)
  spends_of_blocks [] = ok []
  spends_of_blocks (b ∷ bs) =
      bind (spends_of_transactions b.transactions)
        λ first. bind (spends_of_blocks bs) λ rest. ok (first ++ rest)

  -- `save_tip_spends`: where it raises, the table is the old one.
  unfoldable pub save_tip_spends : Text → List Block → UtxoIndex → Result IndexError UtxoIndex
  save_tip_spends tip blocks index = bind (spends_of_blocks blocks) λ spends.
      bind (insert_spends [] spends)
        λ rows. ok (record index { spends = delete_tip tip index.spends ++ at_tip tip rows })
