-- ===== src/ForkStore/Linked.antt =====
-- Every block of the fork store (blockchaincoin/storage.py) leads down to a first block.
use blockchain_coin.Shared.{
  ℕ, zero, suc, ◌+◌, ◌≡◌, refl, sym, ap, ◌∙◌, true, false, some, none, List, [], ◌∷◌, ◌++◌, ℤ, pos,
  ◌+ℤ◌, int_laws, eqb_ℤ, eqb_ℤ_iff, Result, ok, bind-eq-ok, bind-ok, beq_self, Result-cases,
  Option-cases, Bool-cases, inl, inr, arith, lookup, insert, lookup-insert, ◌==◌, subst, pos_part,
}
use blockchain_coin.Text.{Text, text_equality}
use blockchain_coin.Crypto.{Primitives}
use blockchain_coin.Consensus.Types.{Block}
use blockchain_coin.Consensus.Encode.{block_hash}
use blockchain_coin.ForkStore.{
  StorageError, StoredBlock, ForkStore, get_block, new_work, check_row, put_hashed, put_block,
  chain_from, chain_to_tip,
}

-- A block at height `n` of a store: a first block, or one above a stored parent.
abbrev pub Stands : ForkStore → ℕ → StoredBlock → Type 0
Stands store zero b = b.block.height ≡ pos 0
Stands store (suc n) b =
    (b.block.height ≡ pos (suc n))
    × ((parent : StoredBlock) × (lookup b.block.previous_hash store ≡ some parent)
        × (parent.block.height ≡ pos n))

abbrev pub IsLinked : ForkStore → Type 0
IsLinked store =
    (hash : Text) (b : StoredBlock) → lookup hash store ≡ some b → (n : ℕ) × Stands store n b

pub Stands-height :
    (store : ForkStore) (n : ℕ) (b : StoredBlock) → Stands store n b → b.block.height ≡ pos n
Stands-height store zero b s = s
Stands-height store (suc n) b s = s.0

pub same_height : (a : ℤ) (m n : ℕ) → a ≡ pos m → a ≡ pos n → m ≡ n
same_height a m n h k = ap pos_part (sym h ∙ k)

pub get_block_of :
    (hash : Text) (store : ForkStore) (b : StoredBlock)
    → lookup hash store ≡ some b
    → get_block hash store ≡ ok b
unfolding get_block
get_block_of hash store b found = rw (found, get_block) refl

chain_from-total :
    (n : ℕ) (b : StoredBlock) (store : ForkStore)
    → IsLinked store
    → Stands store n b
    → (chain : List StoredBlock) × (chain_from (suc n) b store ≡ ok chain)
unfolding chain_from
chain_from-total zero b store h s = (b ∷ [], rw s (ground arith))
chain_from-total (suc n) b store h s =
    let (at_height, above_parent) = s in
    let (parent, found, below) = above_parent in
    let (m, stands) = h b.block.previous_hash parent found in
    let same : m ≡ n =
      same_height parent.block.height m n (Stands-height store m parent stands) below in
    let stands' : Stands store n parent = subst (λ k. Stands store k parent) same stands in
    let (chain, rest) = chain_from-total n parent store h stands' in
    let above : eqb_ℤ (pos (suc n)) (pos 0) ≡ false = ground arith in
    (
      chain ++ b ∷ [],
      rw (at_height, above)
          (bind-ok _ (get_block_of b.block.previous_hash store parent found) (bind-ok _ rest refl)),
    )

-- In a linked store `chain_to_tip` of every stored block returns: neither is a parent missing nor
-- does the fuel run out.
pub chain_to_tip-total :
    (hash : Text) (b : StoredBlock) (store : ForkStore)
    → IsLinked store
    → lookup hash store ≡ some b
    → (chain : List StoredBlock) × (chain_to_tip hash store ≡ ok chain)
unfolding chain_to_tip
chain_to_tip-total hash b store h found =
    let (n, stands) = h hash b found in
    let (chain, e) = chain_from-total n b store h stands in
    let fuel : pos_part b.block.height + 1 ≡ suc n =
      let at = ap pos_part (Stands-height store n b stands) in omega (arith, at) in
    (chain, bind-ok _ (get_block_of hash store b found) (ap (λ f. chain_from f b store) fuel ∙ e))

Stands-insert :
    (store : ForkStore) (hash : Text) (added : StoredBlock) (n : ℕ) (b : StoredBlock)
    → lookup hash store ≡ none
    → Stands store n b
    → Stands (insert hash added store) n b
Stands-insert store hash added zero b fresh s = s
Stands-insert store hash added (suc n) b fresh s =
    let (at_height, above_parent) = s in
    let (parent, found, below) = above_parent in
    elim (Bool-cases (hash == b.block.previous_hash)) [
      | inl e ↦
          let same : hash ≡ b.block.previous_hash =
            (text_equality.same_iff hash b.block.previous_hash).0 e in
          absurd (cc)
      | inr e ↦ (
        at_height,
        (parent, rw (lookup-insert b.block.previous_hash hash added store, e) found, below),
      )
    ]

pub get_block-eq-ok :
    (hash : Text) (store : ForkStore) {b : StoredBlock}
    → get_block hash store ≡ ok b
    → lookup hash store ≡ some b
unfolding get_block
get_block-eq-ok hash store h = elim (Option-cases (lookup hash store)) [
  | inl e ↦ absurd (cc (rw (e, get_block) at h))
  | inr (b, e) ↦ ground arith
]

-- A block that passes the checks stands in the store.
new_work-Stands :
    (b : Block) (store : ForkStore) {work : ℕ}
    → IsLinked store
    → new_work b store ≡ ok work
    → (n : ℕ) × Stands store n (record { block = b; cumulative_work = work })
unfolding new_work
new_work-Stands b store {work} h e = elim (Bool-cases (eqb_ℤ b.height (pos 0))) [
  | inl first ↦ (0, (eqb_ℤ_iff b.height (pos 0)).0 first)
  | inr later ↦
      let (parent, e₁, e₂) =
        bind-eq-ok (get_block b.previous_hash store) _ (rw (later, new_work) at e) in
      let found = get_block-eq-ok b.previous_hash store e₁ in
      let (n, stands) = h b.previous_hash parent found in
      let below = Stands-height store n parent stands in
      let next : eqb_ℤ b.height (parent.block.height +ℤ pos 1) ≡ true = ground arith in
      let at_height : b.height ≡ pos (suc n) =
        (eqb_ℤ_iff b.height (parent.block.height +ℤ pos 1)).0 next
        ∙ ap (λ a. a +ℤ pos 1) below
        ∙ plus_one n in
      (suc n, (at_height, (parent, found, below)))
]
  where
    plus_one : (n : ℕ) → pos n +ℤ pos 1 ≡ pos (suc n)
    plus_one n = omega int_laws

insert-IsLinked :
    (hash : Text) (b : Block) (work : ℕ) (store : ForkStore)
    → IsLinked store
    → lookup hash store ≡ none
    → new_work b store ≡ ok work
    → IsLinked (insert hash (record { block = b; cumulative_work = work }) store)
insert-IsLinked hash b work store h fresh e other b' found =
    let added : StoredBlock = record { block = b; cumulative_work = work } in
    elim (Bool-cases (hash == other)) [
      | inl same ↦
          let (n, stands) = new_work-Stands b store h e in
          let is_added : added ≡ b' =
            cc (rw (lookup-insert other hash added store, same) at found) in
          (
            n,
            subst (Stands (insert hash added store) n) is_added
                (Stands-insert store hash added n added fresh stands),
          )
      | inr apart ↦
          let found' : lookup other store ≡ some b' =
            rw (lookup-insert other hash added store, apart) at found in
          let (n, stands) = h other b' found' in
          (n, Stands-insert store hash added n b' fresh stands)
    ]

-- `put_block` keeps a linked store linked, and the block that it returns is stored under the hash.
pub put_hashed-IsLinked :
    (hash : Text) (b : Block) (store : ForkStore) (stored : StoredBlock) (store' : ForkStore)
    → IsLinked store
    → put_hashed hash b store ≡ ok (stored, store')
    → IsLinked store' × (lookup hash store' ≡ some stored)
unfolding put_hashed
put_hashed-IsLinked hash b store stored store' h e = elim (Option-cases (lookup hash store)) [
  | inr (old, found) ↦
      let e' : ◌≡◌ {A = Result StorageError (StoredBlock × ForkStore)} (ok (old, store))
          (ok (stored, store')) =
        rw (found, put_hashed) at e in
      let kept : store ≡ store' = cc in
      let same : old ≡ stored = cc in (subst IsLinked kept h, rw (← kept) (found ∙ ap some same))
  | inl fresh ↦
      let (work, e₁, checked) = bind-eq-ok (new_work b store) _ (rw (fresh, put_hashed) at e) in
      let (_, _, e₂) = bind-eq-ok (check_row b work) _ checked in
      let added : StoredBlock = record { block = b; cumulative_work = work } in
      let grown : insert hash added store ≡ store' = cc e₂ in
      let same : added ≡ stored = cc e₂ in
      (
        subst IsLinked grown (insert-IsLinked hash b work store h fresh e₁),
        rw (← grown, lookup-insert hash hash added store, beq_self hash) (ap some same),
      )
]

-- Where `put_block` of a block whose difficulty is not negative returns on a linked store, the store stays
-- linked, and `chain_to_tip` of the block's hash then returns a chain.
pub put_block-chain_to_tip :
    ⦃prim : Primitives⦄ (b : Block) (store : ForkStore) (stored : StoredBlock) (store' : ForkStore)
    → IsLinked store
    → put_block b store ≡ ok (stored, store')
    → IsLinked store'
      × ((hash : Text) × (chain : List StoredBlock) × (block_hash b ≡ ok hash)
          × (chain_to_tip hash store' ≡ ok chain))
unfolding put_block
put_block-chain_to_tip b store stored store' h e = elim (Result-cases (block_hash b)) [
  | inr (x, k) ↦ absurd (cc (rw (k, put_block) at e))
  | inl (hash, k) ↦
      let (linked, found) =
        put_hashed-IsLinked hash b store stored store' h (rw (k, put_block) at e) in
      let (chain, whole) = chain_to_tip-total hash stored store' linked found in
      (linked, (hash, chain, k, whole))
]
