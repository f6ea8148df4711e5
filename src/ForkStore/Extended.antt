-- ===== src/ForkStore/Extended.antt =====
-- The fork store (blockchaincoin/storage.py) with one more block: the old chains stay, and the new
-- block's chain is its parent's with the block behind it.
use blockchain_coin.Shared.{
  ℕ, zero, suc, ◌+◌, ◌≡◌, refl, sym, ap, ◌∙◌, false, Option, some, none, List, [], ◌∷◌, ◌++◌,
  length, length-append, pos, pos_part, ◌+ℤ◌, int_laws, eqb_ℤ, ok, bind-eq-ok, bind-ok, beq_self,
  Bool-cases, inl, inr, arith, lookup, insert, lookup-insert, ◌==◌, subst,
}
use blockchain_coin.Text.{Text, text_equality}
use blockchain_coin.ForkStore.{StoredBlock, ForkStore, get_block, chain_from, chain_to_tip}
use blockchain_coin.ForkStore.Linked.{
  Stands, Stands-height, IsLinked, get_block_of, get_block-eq-ok, same_height,
}

-- What one store holds, the other does.
abbrev pub IsWithin : ForkStore → ForkStore → Type 0
IsWithin store store' =
    (hash : Text) (b : StoredBlock) → lookup hash store ≡ some b → lookup hash store' ≡ some b

pub insert-IsWithin :
    (hash : Text) (added : StoredBlock) (store : ForkStore)
    → lookup hash store ≡ none
    → IsWithin store (insert hash added store)
insert-IsWithin hash added store fresh other b found = elim (Bool-cases (hash == other)) [
  | inl e ↦ let same : hash ≡ other = (text_equality.same_iff hash other).0 e in absurd (cc)
  | inr e ↦ rw (lookup-insert other hash added store, e) found
]

pub chain_from-within :
    (f : ℕ) (b : StoredBlock) (store store' : ForkStore) {chain : List StoredBlock}
    → IsWithin store store'
    → chain_from f b store ≡ ok chain
    → chain_from f b store' ≡ ok chain
unfolding chain_from
chain_from-within zero b store store' w h = absurd (cc)
chain_from-within (suc f) b store store' w h = elim (Bool-cases (eqb_ℤ b.block.height (pos 0))) [
  | inl e ↦ rw e (rw (e) at h)
  | inr e ↦
      let (parent, e₁, h₁) = bind-eq-ok (get_block b.block.previous_hash store) _ (rw (e) at h) in
      let (chain, e₂, h₂) = bind-eq-ok (chain_from f parent store) _ h₁ in
      let found = w b.block.previous_hash parent (get_block-eq-ok b.block.previous_hash store e₁) in
      rw e (
        bind-ok _ (get_block_of b.block.previous_hash store' parent found)
          (bind-ok _ (chain_from-within f parent store store' w e₂) h₂))
]

pub chain_to_tip-within :
    (hash : Text) (store store' : ForkStore) {chain : List StoredBlock}
    → IsWithin store store'
    → chain_to_tip hash store ≡ ok chain
    → chain_to_tip hash store' ≡ ok chain
unfolding chain_to_tip
chain_to_tip-within hash store store' w h =
    let (tip, e, h₁) = bind-eq-ok (get_block hash store) _ h in
    bind-ok _ (get_block_of hash store' tip (w hash tip (get_block-eq-ok hash store e)))
      (chain_from-within (pos_part tip.block.height + 1) tip store store' w h₁)

-- The chain of a block ends with the block, behind as many others as its height says.
pub chain_from-shape :
    (n : ℕ) (b : StoredBlock) (store : ForkStore) {chain : List StoredBlock}
    → IsLinked store
    → Stands store n b
    → chain_from (suc n) b store ≡ ok chain
    → (front : List StoredBlock) × (chain ≡ front ++ b ∷ []) × (length front ≡ n)
unfolding chain_from
chain_from-shape zero b store {chain} h s e =
    let first : b ∷ [] ≡ chain = cc (rw (s) at e) in ([], sym first, refl)
chain_from-shape (suc n) b store {chain} h (at_height, found_parent) e =
    let (parent, found, below) = found_parent in
    let later : eqb_ℤ (pos (suc n)) (pos 0) ≡ false = ground arith in
    let (parent', e₁, h₁) =
      bind-eq-ok (get_block b.block.previous_hash store) _ (rw (at_height, later) at e) in
    let (chain', e₂, h₂) = bind-eq-ok (chain_from (suc n) parent' store) _ h₁ in
    let found' = get_block-eq-ok b.block.previous_hash store e₁ in
    let (m, stands) = h b.block.previous_hash parent' found' in
    let same : parent ≡ parent' = some_eq (sym found ∙ found') in
    let as_high : m ≡ n =
      same_height parent'.block.height m n (Stands-height store m parent' stands)
        (subst (λ p. p.block.height ≡ pos n) same below) in
    let (front, whole, long) =
      chain_from-shape n parent' store h (subst (λ k. Stands store k parent') as_high stands) e₂ in
    let made : chain' ++ b ∷ [] ≡ chain = cc h₂ in
    let longer : length chain' ≡ length front + 1 =
      ap length whole ∙ length-append front (parent' ∷ []) in
    (chain', sym made, omega arith)
  where
    some_eq : {x y : StoredBlock} → ◌≡◌ {A = Option StoredBlock} (some x) (some y) → x ≡ y
    some_eq e = cc

-- The chain of a stored block ends with it, and is one longer than its height.
pub chain_to_tip-shape :
    (hash : Text) (b : StoredBlock) (store : ForkStore) {chain : List StoredBlock}
    → IsLinked store
    → lookup hash store ≡ some b
    → chain_to_tip hash store ≡ ok chain
    → (front : List StoredBlock) × (chain ≡ front ++ b ∷ []) × (b.block.height ≡ pos (length front))
unfolding chain_to_tip
chain_to_tip-shape hash b store {chain} linked found e =
    let (n, stands) = linked hash b found in
    let low : b.block.height ≡ pos n = Stands-height store n b stands in
    let (b', e₁, h₁) = bind-eq-ok (get_block hash store) _ e in
    let same : b' ≡ b = same_stored (sym (get_block-eq-ok hash store e₁) ∙ found) in
    let fuel : pos_part b'.block.height + 1 ≡ suc n =
      let at = ap (λ c. pos_part c.block.height) same ∙ ap pos_part low in omega (arith, at) in
    let whole : chain_from (suc n) b store ≡ ok chain =
      ap (λ f. chain_from f b store) (sym fuel)
      ∙ ap (λ c. chain_from (pos_part b'.block.height + 1) c store) (sym same)
      ∙ h₁ in
    let (front, shape, long) = chain_from-shape n b store linked stands whole in
    (front, shape, low ∙ ap pos (sym long))
  where
    same_stored : {x y : StoredBlock} → ◌≡◌ {A = Option StoredBlock} (some x) (some y) → x ≡ y
    same_stored e = cc

chain_from-step :
    (f : ℕ) (b parent : StoredBlock) (store : ForkStore) {chain : List StoredBlock}
    → eqb_ℤ b.block.height (pos 0) ≡ false
    → lookup b.block.previous_hash store ≡ some parent
    → chain_from f parent store ≡ ok chain
    → chain_from (suc f) b store ≡ ok (chain ++ b ∷ [])
unfolding chain_from
chain_from-step f b parent store later found h =
    rw (later, chain_from)
      (bind-ok _ (get_block_of b.block.previous_hash store parent found) (bind-ok _ h refl))

-- The chain of a block that is new, above a block whose chain is known
pub chain_to_tip-above :
    (hash : Text) (added parent : StoredBlock) (store : ForkStore) {chain : List StoredBlock}
    → IsLinked store
    → lookup hash store ≡ none
    → lookup added.block.previous_hash store ≡ some parent
    → added.block.height ≡ parent.block.height +ℤ pos 1
    → chain_to_tip added.block.previous_hash store ≡ ok chain
    → chain_to_tip hash (insert hash added store) ≡ ok (chain ++ added ∷ [])
unfolding chain_to_tip
chain_to_tip-above hash added parent store {chain} linked fresh found above e =
    let store' = insert hash added store in
    let w = insert-IsWithin hash added store fresh in
    let (n, stands) = linked added.block.previous_hash parent found in
    let low : parent.block.height ≡ pos n = Stands-height store n parent stands in
    let high : added.block.height ≡ pos (suc n) = above ∙ ap (λ a. a +ℤ pos 1) low ∙ plus_one n in
    let here : lookup hash store' ≡ some added =
      rw (lookup-insert hash hash added store, beq_self hash) refl in
    let (parent', e₁, h₁) = bind-eq-ok (get_block added.block.previous_hash store) _ e in
    let same : parent' ≡ parent =
      same_stored (sym (get_block-eq-ok added.block.previous_hash store e₁) ∙ found) in
    let fuel : pos_part parent'.block.height + 1 ≡ suc n =
      let at = ap (λ b. pos_part b.block.height) same ∙ ap pos_part low in omega (arith, at) in
    let below : chain_from (suc n) parent store ≡ ok chain =
      ap (λ f. chain_from f parent store) (sym fuel)
      ∙ ap (λ b. chain_from (pos_part parent'.block.height + 1) b store) (sym same)
      ∙ h₁ in
    let later : eqb_ℤ added.block.height (pos 0) ≡ false = ground arith in
    let more : pos_part added.block.height + 1 ≡ suc (suc n) =
      let at = ap pos_part high in omega (arith, at) in
    let step =
      chain_from-step (suc n) added parent store' later (w _ parent found)
        (chain_from-within (suc n) parent store store' w below) in
    bind-ok _ (get_block_of hash store' added here)
      (ap (λ f. chain_from f added store') more ∙ step)
  where
    plus_one : (n : ℕ) → pos n +ℤ pos 1 ≡ pos (suc n)
    plus_one n = omega int_laws

    same_stored : {x y : StoredBlock} → ◌≡◌ {A = Option StoredBlock} (some x) (some y) → x ≡ y
    same_stored e = cc
