-- ===== src/Storage/Snapshots.antt =====
-- What `load_tip_snapshot` of the index of unspent outputs (blockchaincoin/storage.py) reads after
-- `save_tip_snapshot`.
use blockchain_coin.Shared.{
  ◌≡◌, ◌≢◌, refl, sym, ap, ◌∙◌, true, false, Option, none, some, List, [], ◌∷◌, ◌++◌, map, is_empty,
  Result, ok, bind, bind-ok, Bool-cases, inl, inr, arith, Distinct, lookup, ◌==◌, if◌then◌else◌,
  append-nil, subst,
}
use blockchain_coin.Text.{Text, text_eq, text_eq_iff}
use blockchain_coin.Failure.{Error}
use blockchain_coin.Consensus.Types.{OutPoint, outpoint_equality}
use blockchain_coin.Consensus.Utxo.{
  Utxo, UtxoSet, new_set, entry_of, copy, insert_entry, sort_entries, entries,
}
use blockchain_coin.Consensus.Utxo.Laws.{copy_lem}
use blockchain_coin.Storage.Index.{
  UtxoIndex, rows_at, delete_tip, at_tip, all_fit, save_tip_snapshot, set_of_rows, found,
  load_tip_snapshot,
}

-- The dictionary whose items are these entries
abbrev pub items : List Utxo → UtxoSet
items rows = map (λ e. (e.outpoint, e.output)) rows

items-entry_of : (utxos : UtxoSet) → items (map entry_of utxos) ≡ utxos
items-entry_of [] = refl
items-entry_of (entry ∷ utxos) = ap (λ d. entry ∷ d) (items-entry_of utxos)

entry_of-items : (rows : List Utxo) → map entry_of (items rows) ≡ rows
entry_of-items [] = refl
entry_of-items (e ∷ rows) = ap (λ d. e ∷ d) (entry_of-items rows)

lookup-insert_entry :
    (p : OutPoint) (e : Utxo) (rows : List Utxo)
    → lookup e.outpoint (items rows) ≡ none
    → lookup p (items (insert_entry e rows))
      ≡ (if e.outpoint == p then some e.output else lookup p (items rows))
unfolding insert_entry
lookup-insert_entry p e [] h = refl
lookup-insert_entry p e (f ∷ fs) h = ground (
  arith,
  outpoint_equality.same_iff e.outpoint p,
  outpoint_equality.same_iff f.outpoint p,
  outpoint_equality.same_iff f.outpoint e.outpoint,
  lookup-insert_entry p e fs,
)

insert_entry-Distinct :
    (e : Utxo) (rows : List Utxo)
    → lookup e.outpoint (items rows) ≡ none
    → Distinct (items rows)
    → Distinct (items (insert_entry e rows))
unfolding insert_entry
insert_entry-Distinct e [] h d = (refl, tt)
insert_entry-Distinct e (f ∷ fs) h d = ground (
  arith,
  outpoint_equality.same_iff e.outpoint f.outpoint,
  outpoint_equality.same_iff f.outpoint e.outpoint,
  lookup-insert_entry f.outpoint e fs,
  insert_entry-Distinct e fs,
)

-- The same entries, in order
sorted_items :
    (rows : List Utxo)
    → Distinct (items rows)
    → Distinct (items (sort_entries rows))
      × ((p : OutPoint) → lookup p (items (sort_entries rows)) ≡ lookup p (items rows))
unfolding sort_entries
sorted_items [] d = (tt, λ p. refl)
sorted_items (e ∷ rows) d =
    let (distinct, same) = sorted_items rows d.1 in
    let fresh = same e.outpoint ∙ d.0 in
    (
      insert_entry-Distinct e (sort_entries rows) fresh distinct,
      λ p.
          lookup-insert_entry p e (sort_entries rows) fresh
          ∙ ap (λ o. if e.outpoint == p then some e.output else o) (same p),
    )

set_of_rows-items :
    (rows : List Utxo)
    → Distinct (items (sort_entries rows))
    → set_of_rows rows ≡ ok (items (sort_entries rows))
unfolding set_of_rows copy
set_of_rows-items rows d =
    ap new_set (sym (entry_of-items (sort_entries rows))) ∙ copy_lem (items (sort_entries rows)) d

module _ {A : Type 0} where
  rows_at-append :
      (tip : Text) (xs ys : List (Text × A))
      → rows_at tip (xs ++ ys) ≡ rows_at tip xs ++ rows_at tip ys
  unfolding rows_at
  rows_at-append tip [] ys = refl
  rows_at-append tip (r ∷ xs) ys = ground (arith, rows_at-append tip xs ys)

  rows_at-delete_tip :
      (tip other : Text) (xs : List (Text × A))
      → rows_at other (delete_tip tip xs) ≡ (if text_eq tip other then [] else rows_at other xs)
  unfolding rows_at delete_tip
  rows_at-delete_tip tip other [] = ground arith
  rows_at-delete_tip tip other (r ∷ xs) = ground (
    arith,
    text_eq_iff r.0 tip,
    text_eq_iff r.0 other,
    text_eq_iff tip other,
    rows_at-delete_tip tip other xs,
  )

  rows_at-at_tip :
      (tip other : Text) (xs : List A)
      → rows_at other (at_tip tip xs) ≡ (if text_eq tip other then xs else [])
  unfolding rows_at at_tip
  rows_at-at_tip tip other [] = ground arith
  rows_at-at_tip tip other (a ∷ xs) = ground (arith, rows_at-at_tip tip other xs)

  -- The rows of a tip are replaced, those of the others stay.
  pub replaced_rows :
      (tip other : Text) (rows : List (Text × A)) (new : List A)
      → rows_at other (delete_tip tip rows ++ at_tip tip new)
        ≡ (if text_eq tip other then new else rows_at other rows)
  replaced_rows tip other rows new = elim (Bool-cases (text_eq tip other)) [
    | inl e ↦
        rw
          (
            rows_at-append other (delete_tip tip rows) (at_tip tip new),
            rows_at-delete_tip tip other rows,
            rows_at-at_tip tip other new,
            e,
          )
          refl
    | inr e ↦
        rw
          (
            rows_at-append other (delete_tip tip rows) (at_tip tip new),
            rows_at-delete_tip tip other rows,
            rows_at-at_tip tip other new,
            e,
          )
          (append-nil (rows_at other rows))
  ]

insert_entry_some : (e : Utxo) (rows : List Utxo) → is_empty (insert_entry e rows) ≡ false
unfolding insert_entry
insert_entry_some e [] = refl
insert_entry_some e (f ∷ fs) = ground arith

-- What is loaded, from the rows of a tip
abbrev load_rows : List Utxo → Result Error (Option UtxoSet)
load_rows rows = if is_empty rows then ok none else bind (set_of_rows rows) found

-- A loaded set that holds what `utxos` does
abbrev pub Loads : UtxoSet → Result Error (Option UtxoSet) → Type 0
Loads utxos loaded =
    (set : UtxoSet) × (loaded ≡ ok (some set))
    × Distinct set
    × ((p : OutPoint) → lookup p set ≡ lookup p utxos)

load_rows-entries :
    (utxos : UtxoSet)
    → Distinct utxos
    → is_empty utxos ≡ false
    → Loads utxos (load_rows (entries utxos))
unfolding entries sort_entries
load_rows-entries [] d h = absurd (cc)
load_rows-entries (entry ∷ others) d h =
    let utxos : UtxoSet = entry ∷ others in
    let rows = entries utxos in
    let plain = sym (items-entry_of utxos) in
    let (once, same) = sorted_items (map entry_of utxos) (subst Distinct plain d) in
    let (twice, same') = sorted_items rows once in
    let some_rows : is_empty rows ≡ false =
      insert_entry_some (entry_of entry) (sort_entries (map entry_of others)) in
    (
      items (sort_entries rows),
      rw some_rows (bind-ok found (set_of_rows-items rows twice) refl),
      twice,
      λ p. same' p ∙ same p ∙ ap (lookup p) (items-entry_of utxos),
    )

-- `save_tip_snapshot` of a set that repeats no outpoint, and whose indices and amounts are signed integers of
-- 64 bits, returns. `load_tip_snapshot` of that tip then returns a set that repeats no outpoint and holds the
-- same outputs under the same outpoints, or none where the set was empty; of any other tip it returns what it
-- did before.
pub load_tip_snapshot-save_tip_snapshot :
    (tip : Text) (utxos : UtxoSet) (index : UtxoIndex)
    → Distinct utxos
    → all_fit (entries utxos) ≡ true
    → (saved : UtxoIndex) × (save_tip_snapshot tip utxos index ≡ ok saved)
      × (is_empty utxos ≡ true → load_tip_snapshot tip saved ≡ ok none)
      × (is_empty utxos ≡ false → Loads utxos (load_tip_snapshot tip saved))
      × ((other : Text)
          → other ≢ tip
          → load_tip_snapshot other saved ≡ load_tip_snapshot other index)
unfolding save_tip_snapshot load_tip_snapshot entries sort_entries
load_tip_snapshot-save_tip_snapshot tip utxos index d fit =
    let here : rows_at tip (delete_tip tip index.snapshots ++ at_tip tip (entries utxos))
        ≡ entries utxos =
      rw (replaced_rows tip tip index.snapshots (entries utxos), (text_eq_iff tip tip).1 refl)
        refl in
    (
      record index { snapshots = delete_tip tip index.snapshots ++ at_tip tip (entries utxos) },
      rw (fit, save_tip_snapshot) refl,
      λ none_left. ap load_rows here ∙ no_rows utxos none_left,
      λ some_left. rw here (load_rows-entries utxos d some_left),
      λ other apart. ap load_rows (elsewhere other apart),
    )
  where
    no_rows : (u : UtxoSet) → is_empty u ≡ true → load_rows (entries u) ≡ ok none
    no_rows [] h = refl
    no_rows (entry ∷ others) h = absurd (cc)

    elsewhere :
        (other : Text)
        → other ≢ tip
        → rows_at other (delete_tip tip index.snapshots ++ at_tip tip (entries utxos))
          ≡ rows_at other index.snapshots
    elsewhere other apart = elim (Bool-cases (text_eq tip other)) [
      | inl e ↦ absurd (apart (sym ((text_eq_iff tip other).0 e)))
      | inr e ↦ rw (replaced_rows tip other index.snapshots (entries utxos), e) refl
    ]
