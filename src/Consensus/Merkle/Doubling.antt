-- ===== src/Consensus/Merkle/Doubling.antt =====
-- Two lists of transactions with one root (`calculate_transaction_root` of
-- blockchaincoin/consensus.py): a last transaction that stands alone, and the same one twice.
use blockchain_coin.Shared.{
  ℕ, suc, ◌+◌, ◌<◌, ◌≡◌, refl, sym, ap, ◌∙◌, List, [], ◌∷◌, ◌++◌, length, length-append, Result, ok,
  err, bind, arith, inl, inr, bind-eq-ok, Result-cases, lt→ltb,
}
use blockchain_coin.Text.{Bytes}
use blockchain_coin.Failure.{Error}
use blockchain_coin.Crypto.{Primitives}
use blockchain_coin.Consensus.Types.{Transaction}
use blockchain_coin.Consensus.Merkle.{
  next_layer, root_loop, leaf, leaves, calculate_transaction_root,
}
use blockchain_coin.Consensus.Merkle.Fuel.{root_loop_fuel}

-- The number of items is even.
abbrev pub IsEven {ℓ} : {A : Type ℓ} → List A → Type 0
IsEven [] = Unit
IsEven (x ∷ []) = ⊥
IsEven (x ∷ y ∷ rest) = IsEven rest

module _ ⦃prim : Primitives⦄ where
  -- A last hash that stands alone hashes like the same hash written twice.
  next_layer_doubled :
      (l : List Bytes) (a : Bytes)
      → IsEven l
      → next_layer (l ++ a ∷ []) ≡ next_layer (l ++ a ∷ a ∷ [])
  unfolding next_layer
  next_layer_doubled [] a even = refl
  next_layer_doubled (x ∷ []) a even = absurd even
  next_layer_doubled (x ∷ y ∷ l) a even = rw (next_layer_doubled l a even)

  -- The leaves of a list that ends in `us`, where those of `us` are `m` or raise.
  leaves-append :
      (ts us : List Transaction)
      → leaves (ts ++ us) ≡ bind (leaves ts) λ l. bind (leaves us) λ m. ok (l ++ m)
  unfolding leaves
  leaves-append [] us = elim (Result-cases (leaves us)) [ inl (m, e) ↦ rw e | inr (x, e) ↦ rw e ]
  leaves-append (t ∷ ts) us = elim (Result-cases (leaf t)) [
    | inr (x, e) ↦ rw e
    | inl (a, e) ↦ rw (e, leaves-append ts us) (after a (leaves ts) (leaves us))
  ]
    where
      after :
          (a : Bytes) (r r' : Result Error (List Bytes))
          → bind (bind r λ l. bind r' λ m. ok (l ++ m)) (λ rest. ok (a ∷ rest))
            ≡ bind (bind r λ rest. ok (a ∷ rest)) (λ l. bind r' λ m. ok (l ++ m))
      after a (err x) r' = refl
      after a (ok l) (err x) = refl
      after a (ok l) (ok m) = refl

  leaves-IsEven :
      (ts : List Transaction) {l : List Bytes}
      → leaves ts ≡ ok l
      → IsEven ts
      → IsEven l × (length l ≡ length ts)
  unfolding leaves
  leaves-IsEven [] {l} h even = let e : [] ≡ l = cc in rw (← e) (tt, refl)
  leaves-IsEven (t ∷ []) h even = absurd even
  leaves-IsEven (t ∷ u ∷ ts) {l} h even =
      let (a, e₁, h₁) = bind-eq-ok (leaf t) _ h in
      let (l₁, e₂, h₂) = bind-eq-ok (leaves (u ∷ ts)) _ h₁ in
      let (b, e₃, h₃) = bind-eq-ok (leaf u) _ e₂ in
      let (l₂, e₄, h₄) = bind-eq-ok (leaves ts) _ h₃ in
      let e : a ∷ b ∷ l₂ ≡ l = cc in
      let (even', same) = leaves-IsEven ts e₄ even in rw (← e) (even', omega arith)

  root_loop_long :
      (n : ℕ) (l : List Bytes)
      → 1 < length l
      → root_loop (suc n) l ≡ bind (next_layer l) (root_loop n)
  unfolding root_loop
  root_loop_long n l h = rw (lt→ltb 1 (length l) h)

  -- One round makes the two layers equal.
  root_loop_doubled :
      (l : List Bytes) (a : Bytes)
      → IsEven l
      → 0 < length l
      → root_loop (length (l ++ a ∷ [])) (l ++ a ∷ [])
        ≡ root_loop (length (l ++ a ∷ a ∷ [])) (l ++ a ∷ a ∷ [])
  root_loop_doubled l a even some_left =
      let n = length l + 2 in
      let one = length-append l (a ∷ []) in
      let two = length-append l (a ∷ a ∷ []) in
      root_loop_fuel (length (l ++ a ∷ [])) (suc n) (l ++ a ∷ []) (omega arith) (omega arith)
      ∙ root_loop_long n (l ++ a ∷ []) (omega arith)
      ∙ ap (λ r. bind r (root_loop n)) (next_layer_doubled l a even)
      ∙ sym (root_loop_long n (l ++ a ∷ a ∷ []) (omega arith))
      ∙ root_loop_fuel (suc n) (length (l ++ a ∷ a ∷ [])) (l ++ a ∷ a ∷ []) (omega arith)
          (omega arith)

  root_of_leaves :
      (ts : List Transaction)
      → 0 < length ts
      → calculate_transaction_root ts ≡ bind (leaves ts) λ layer. root_loop (length layer) layer
  unfolding calculate_transaction_root
  root_of_leaves [] h = absurd (omega arith)
  root_of_leaves (t ∷ ts) h = refl

  leaves_one : (t : Transaction) → leaves (t ∷ []) ≡ bind (leaf t) λ a. ok (a ∷ [])
  unfolding leaves
  leaves_one t = refl

  leaves_two : (t : Transaction) → leaves (t ∷ t ∷ []) ≡ bind (leaf t) λ a. ok (a ∷ a ∷ [])
  unfolding leaves
  leaves_two t = elim (Result-cases (leaf t)) [ inl (a, e) ↦ rw e | inr (x, e) ↦ rw e ]

  -- An even, non-empty list of transactions followed by `t` has the root of the same list followed
  -- by `t` twice.
  pub calculate_transaction_root_doubled :
      (ts : List Transaction) (t : Transaction)
      → IsEven ts
      → 0 < length ts
      → calculate_transaction_root (ts ++ t ∷ []) ≡ calculate_transaction_root (ts ++ t ∷ t ∷ [])
  calculate_transaction_root_doubled ts t even some_left =
      rw
        (
          root_of_leaves (ts ++ t ∷ []) (omega (arith, length-append {0} ts (t ∷ []))),
          root_of_leaves (ts ++ t ∷ t ∷ []) (omega (arith, length-append {0} ts (t ∷ t ∷ []))),
          leaves-append ts (t ∷ []),
          leaves-append ts (t ∷ t ∷ []),
          leaves_one t,
          leaves_two t,
        )
        (elim (Result-cases (leaves ts)) [
          | inr (x, e) ↦ rw e
          | inl (l, e) ↦ elim (Result-cases (leaf t)) [
            | inr (x, e') ↦ rw (e, e')
            | inl (a, e') ↦
                let (even', same) = leaves-IsEven ts e even in
                rw (e, e') (root_loop_doubled l a even' (omega arith))
          ]
        ])
