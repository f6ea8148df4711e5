-- ===== src/ForkChoice/Heaviest.antt =====
-- `best_tip` of the fork store (blockchaincoin/storage.py) over all its rows.
use blockchain_coin.Shared.{
  ℕ, ◌≤◌, ◌≡◌, refl, ap, ◌∙◌, Bool, true, false, ◌&&◌, ◌||◌, Option, some, List, [], ◌∷◌, ltb, eqb,
  ltb_ℤ, eqb_ℤ, Bool-cases, inl, inr, arith, Distinct, lookup, ◌==◌, beq_self, if◌then◌else◌, subst,
  ◌⊎◌,
}
use blockchain_coin.Text.{Text, text_lt, text_equality}
use blockchain_coin.ForkStore.{StoredBlock, ForkStore}
use blockchain_coin.ForkChoice.{better, best_of, best_tip}

-- The row is one of these.
abbrev pub IsRow : Text × StoredBlock → List (Text × StoredBlock) → Type 0
IsRow p [] = ⊥
IsRow p (q ∷ qs) = (p ≡ q) ⊎ IsRow p qs

abbrev work_of : Text × StoredBlock → ℕ
work_of p = p.1.cumulative_work

better-work :
    (p q : Text × StoredBlock)
    → (work_of p ≤ work_of (if better q p then q else p))
      × (work_of q ≤ work_of (if better q p then q else p))
unfolding better
better-work p q = by_work p q (
    ltb_ℤ p.1.block.height q.1.block.height
    || (eqb_ℤ q.1.block.height p.1.block.height && text_lt q.0 p.0))
  where
    by_work :
        (p q : Text × StoredBlock) (later : Bool)
        → let best =
            if (ltb (work_of p) (work_of q) || (eqb (work_of q) (work_of p) && later))
            then q
            else p in
          (work_of p ≤ work_of best) × (work_of q ≤ work_of best)
    by_work p q later = ground arith

best_of-heaviest :
    (p r : Text × StoredBlock) (qs : List (Text × StoredBlock))
    → IsRow r (p ∷ qs)
    → work_of r ≤ work_of (best_of p qs)
unfolding best_of
best_of-heaviest p r [] (inl e) = rw e (omega arith)
best_of-heaviest p r [] (inr m) = absurd m
best_of-heaviest p r (q ∷ qs) (inl e) =
    let ahead =
      best_of-heaviest (if better q p then q else p) (if better q p then q else p) qs (inl refl) in
    let (least, _) = better-work p q in rw e (omega arith)
best_of-heaviest p r (q ∷ qs) (inr (inl e)) =
    let ahead =
      best_of-heaviest (if better q p then q else p) (if better q p then q else p) qs (inl refl) in
    let (_, least) = better-work p q in rw e (omega arith)
best_of-heaviest p r (q ∷ qs) (inr (inr m)) =
    best_of-heaviest (if better q p then q else p) r qs (inr m)

best_of-IsRow :
    (p : Text × StoredBlock) (qs : List (Text × StoredBlock)) → IsRow (best_of p qs) (p ∷ qs)
unfolding best_of
best_of-IsRow p [] = inl refl
best_of-IsRow p (q ∷ qs) =
    chosen (if better q p then q else p) (one_of (better q p))
      (best_of-IsRow (if better q p then q else p) qs)
  where
    one_of : (b : Bool) → ((if b then q else p) ≡ p) ⊎ ((if b then q else p) ≡ q)
    one_of true = inr refl
    one_of false = inl refl

    chosen :
        (w : Text × StoredBlock) {r : Text × StoredBlock}
        → (w ≡ p) ⊎ (w ≡ q)
        → IsRow r (w ∷ qs)
        → IsRow r (p ∷ q ∷ qs)
    chosen w k (inr m) = inr (inr m)
    chosen w (inl k) (inl e) = inl (e ∙ k)
    chosen w (inr k) (inl e) = inr (inl (e ∙ k))

IsRow-lookup :
    (hash : Text) (b : StoredBlock) (store : ForkStore)
    → lookup hash store ≡ some b
    → IsRow (hash, b) store
IsRow-lookup hash b [] h = absurd (cc)
IsRow-lookup hash b (q ∷ qs) h = elim (Bool-cases (q.0 == hash)) [
  | inl e ↦
      let same : q.0 ≡ hash = (text_equality.same_iff q.0 hash).0 e in
      let found : ◌≡◌ {A = Option StoredBlock} (some q.1) (some b) = rw (e) at h in
      let block : q.1 ≡ b = cc in inl (rw (same, block) refl)
  | inr e ↦ inr (IsRow-lookup hash b qs (rw (e) at h))
]

lookup-IsRow :
    (p : Text × StoredBlock) (store : ForkStore)
    → Distinct store
    → IsRow p store
    → lookup p.0 store ≡ some p.1
lookup-IsRow p [] d m = absurd m
lookup-IsRow p (q ∷ qs) d (inl e) = rw (← e, beq_self p.0) refl
lookup-IsRow p (q ∷ qs) d (inr m) = elim (Bool-cases (q.0 == p.0)) [
  | inr e ↦ rw e (lookup-IsRow p qs d.1 m)
  | inl e ↦
      let same : q.0 ≡ p.0 = (text_equality.same_iff q.0 p.0).0 e in
      let found = lookup-IsRow p qs d.1 m in absurd (cc)
]

-- In a store that repeats no hash, the block that `best_tip` returns is stored, and no stored block has
-- more cumulative work.
pub best_tip-heaviest :
    (store : ForkStore) (tip : StoredBlock)
    → Distinct store
    → best_tip store ≡ some tip
    → ((hash : Text) × (lookup hash store ≡ some tip))
      × ((hash : Text) (b : StoredBlock)
          → lookup hash store ≡ some b
          → b.cumulative_work ≤ tip.cumulative_work)
unfolding best_tip
best_tip-heaviest [] tip d h = absurd (cc)
best_tip-heaviest (p ∷ ps) tip d h =
    let best = best_of p ps in
    let same : best.1 ≡ tip = cc in
    (
      (best.0, lookup-IsRow best (p ∷ ps) d (best_of-IsRow p ps) ∙ ap some same),
      λ hash b found.
          subst (λ t. b.cumulative_work ≤ t.cumulative_work) same
            (best_of-heaviest p (hash, b) ps (IsRow-lookup hash b (p ∷ ps) found)),
    )
