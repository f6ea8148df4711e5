-- ===== src/Consensus/Utxo.antt =====
-- `UTXOSet` of blockchaincoin/consensus.py: the dictionary of unspent outputs by outpoint.
pub mod Laws
use blockchain_coin.Shared.{
  ℕ, ◌≡◌, Bool, true, false, ◌&&◌, ◌||◌, Option, none, some, List, [], ◌∷◌, map, length,
  if◌then◌else◌, ℤ, sum, ltb_ℤ, Result, ok, err, bind, Dict, lookup, contains, insert, erase, ◌==◌,
}
use blockchain_coin.Text.{Text, text_eq, text_lt}
use blockchain_coin.Failure.{Error, duplicate_utxo, missing_or_spent, missing_output}
use blockchain_coin.Consensus.Types.{OutPoint, TxOutput, outpoint_equality}

-- `UTXO`
pub record Utxo : Type 0 where
  pub outpoint : OutPoint
  pub output : TxOutput

-- `_entries`, in the order of insertion
abbrev pub UtxoSet : Type 0
UtxoSet = Dict OutPoint TxOutput

abbrev pub empty : UtxoSet
empty = []

unfoldable pub add : OutPoint → TxOutput → UtxoSet → Result Error UtxoSet
add outpoint output utxos =
    if contains outpoint utxos then err duplicate_utxo else ok (insert outpoint output utxos)

unfoldable pub add_entries : List Utxo → UtxoSet → Result Error UtxoSet
add_entries [] utxos = ok utxos
add_entries (entry ∷ entries) utxos =
    bind (add entry.outpoint entry.output utxos) (add_entries entries)

-- `UTXOSet(entries)`
unfoldable pub new_set : List Utxo → Result Error UtxoSet
new_set entries = add_entries entries empty

abbrev pub entry_of : OutPoint × TxOutput → Utxo
entry_of (p, o) = record { outpoint = p; output = o }

unfoldable pub copy : UtxoSet → Result Error UtxoSet
copy utxos = new_set (map entry_of utxos)

-- The output that was held, and the set without it.
unfoldable pub spend : OutPoint → UtxoSet → Result Error (TxOutput × UtxoSet)
spend outpoint utxos = elim (lookup outpoint utxos) [
  | none ↦ err missing_or_spent
  | some output ↦ ok (output, erase outpoint utxos)
]

unfoldable pub get : OutPoint → UtxoSet → Result Error TxOutput
get outpoint utxos = elim (lookup outpoint utxos) [
  | none ↦ err missing_output
  | some output ↦ ok output
]

abbrev pub amounts : UtxoSet → List ℤ
amounts = map (λ e. e.1.amount)

unfoldable pub total : UtxoSet → ℤ
total utxos = sum (amounts utxos)

-- The order of the sort key `(txid, index)`.
unfoldable pub outpoint_lt : OutPoint → OutPoint → Bool
outpoint_lt p q = text_lt p.txid q.txid || (text_eq p.txid q.txid && ltb_ℤ p.index q.index)

unfoldable pub insert_entry : Utxo → List Utxo → List Utxo
insert_entry e [] = e ∷ []
insert_entry e (f ∷ fs) =
    if outpoint_lt e.outpoint f.outpoint then e ∷ f ∷ fs else f ∷ insert_entry e fs

-- Python's `sorted` by that key.
unfoldable pub sort_entries : List Utxo → List Utxo
unfolding insert_entry
sort_entries [] = []
sort_entries (e ∷ es) = insert_entry e (sort_entries es)

unfoldable pub entries : UtxoSet → List Utxo
entries utxos = sort_entries (map entry_of utxos)

unfoldable pub owned_by : Text → List Utxo → List Utxo
owned_by address [] = []
owned_by address (e ∷ es) =
    let rest = owned_by address es in if text_eq e.output.address address then e ∷ rest else rest

unfoldable pub entries_for_address : Text → UtxoSet → List Utxo
entries_for_address address utxos = owned_by address (entries utxos)
