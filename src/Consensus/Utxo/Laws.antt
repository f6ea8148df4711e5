-- ===== src/Consensus/Utxo/Laws.antt =====
-- The set of unspent outputs against the finite map that it stands for, its total, and its copy.
use blockchain_coin.Shared.{
  ◌≡◌, sym, none, some, [], ◌∷◌, ◌++◌, map, arith, pos, ◌+ℤ◌, int_laws, sum-nil, sum-cons,
  sum-append, ok, lookup, contains, insert, erase, ◌==◌, Distinct, insert_new, contains-eq-false,
  Option-cases, Bool-cases, inl, inr, append_assoc, map, append-nil, Distinct-append,
}
use mathlib.Core.List.{map-append}
use blockchain_coin.Consensus.Types.{OutPoint, TxOutput, outpoint_equality}
use blockchain_coin.Consensus.Utxo.{
  UtxoSet, add, add_entries, new_set, entry_of, copy, spend, amounts, total,
}

pub add-eq-ok :
    (p : OutPoint) (o : TxOutput) (s : UtxoSet) {s' : UtxoSet}
    → add p o s ≡ ok s'
    → (lookup p s ≡ none) × (s' ≡ insert p o s)
unfolding add
add-eq-ok p o s h = elim (Bool-cases (contains p s)) [
  | inl e ↦ absurd (cc (rw e at h))
  | inr e ↦ (contains-eq-false p s e, sym (cc (rw e at h)))
]

pub add_of_none :
    (p : OutPoint) (o : TxOutput) (s : UtxoSet)
    → lookup p s ≡ none
    → add p o s ≡ ok (s ++ (p, o) ∷ [])
unfolding add
add_of_none p o s h = ground (arith, insert_new p o s h)

pub spend-eq-ok :
    (p : OutPoint) (s : UtxoSet) {r : TxOutput × UtxoSet}
    → spend p s ≡ ok r
    → (lookup p s ≡ some r.0) × (r.1 ≡ erase p s)
unfolding spend
spend-eq-ok p s h = elim (Option-cases (lookup p s)) [
  | inl e ↦ absurd (cc (rw (e, spend) at h))
  | inr (o, e) ↦ ground arith
]

total-append : (s t : UtxoSet) → total (s ++ t) ≡ total s +ℤ total t
unfolding total
total-append s t = rw (map-append (λ e. e.1.amount) s t) (sum-append (amounts s) (amounts t))

-- What is added raises the total by its amount.
pub total-add :
    (p : OutPoint) (o : TxOutput) (s : UtxoSet) {s' : UtxoSet}
    → add p o s ≡ ok s'
    → total s' ≡ total s +ℤ o.amount
total-add p o s {s'} h =
    let (fresh, _) = add-eq-ok p o s h in
    let e : s' ≡ s ++ (p, o) ∷ [] = cc (add_of_none p o s fresh) in
    rw (e, total-append s ((p, o) ∷ []), total_one) (omega int_laws)
  where
    total_one : total ((p, o) ∷ []) ≡ o.amount +ℤ pos 0
    total_one = unfold total in rw (sum-cons o.amount [], sum-nil)

total-cons : (e : OutPoint × TxOutput) (s : UtxoSet) → total (e ∷ s) ≡ e.1.amount +ℤ total s
unfolding total
total-cons e s = sum-cons e.1.amount (amounts s)

-- What is spent lowers the total by its amount.
pub total-erase :
    (p : OutPoint) (s : UtxoSet) {o : TxOutput}
    → lookup p s ≡ some o
    → total s ≡ total (erase p s) +ℤ o.amount
total-erase p [] h = absurd (cc)
total-erase p (e ∷ s) {o} h = elim (Bool-cases (e.0 == p)) [
  | inl same ↦
      let found : e.1 ≡ o = ground arith in rw (same, total-cons e s, ← found) (omega int_laws)
  | inr other ↦
      rw (other, total-cons e s, total-cons e (erase p s), total-erase p s {o = o} (ground arith))
        (omega int_laws)
]

-- A set without repeated outpoints is copied as it is.
pub add_entries-append :
    (acc s : UtxoSet) → Distinct (acc ++ s) → add_entries (map entry_of s) acc ≡ ok (acc ++ s)
unfolding add_entries
add_entries-append acc [] h = rw (append-nil)
add_entries-append acc (e ∷ s) h =
    let fresh = Distinct-append acc e.0 e.1 s h in
    let moved : (acc ++ e ∷ []) ++ s ≡ acc ++ e ∷ s = append_assoc acc (e ∷ []) s in
    rw (add_of_none e.0 e.1 acc fresh, ← moved) (add_entries-append (acc ++ e ∷ []) s (rw moved h))

-- A set without repeated outpoints is copied to itself, and nothing is raised.
pub copy_lem : (s : UtxoSet) → Distinct s → copy s ≡ ok s
unfolding copy new_set
copy_lem s h = add_entries-append [] s h
