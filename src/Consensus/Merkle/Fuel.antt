-- ===== src/Consensus/Merkle/Fuel.antt =====
-- The loop of `calculate_transaction_root` (blockchaincoin/consensus.py) ends: each round halves the
-- layer, so the fuel that the model gives is enough.
use blockchain_coin.Shared.{
  ℕ, zero, suc, ◌+◌, ◌/◌, ◌≤◌, ◌≡◌, refl, ap, List, [], ◌∷◌, ◌++◌, length, ltb, if◌then◌else◌, ok,
  err, bind, arith, Option-cases, inl, inr, bind-eq-ok, Bool-cases, Result-cases, bind-eq-err,
  ltb→lt, ◌≢◌,
}
use blockchain_coin.Text.{Text, Bytes}
use blockchain_coin.Failure.{out_of_fuel}
use blockchain_coin.Codec.Hex.{fromhex}
use blockchain_coin.Crypto.{Primitives, sha256_hex}
use blockchain_coin.Consensus.Merkle.{bytes_fromhex, first_hex, parent_hash, next_layer, root_loop}

bytes_fromhex-ne : (t : Text) → bytes_fromhex t ≢ err out_of_fuel
bytes_fromhex-ne t h = elim (Option-cases (fromhex t)) [
  | inl e ↦ cc (rw (e, bytes_fromhex) at h)
  | inr (x, e) ↦ cc (rw (e, bytes_fromhex) at h)
]

module _ ⦃prim : Primitives⦄ where
  next_layer-length :
      (l : List Bytes) {l' : List Bytes} → next_layer l ≡ ok l' → length l' ≡ (length l + 1) / 2
  unfolding next_layer
  next_layer-length [] {l'} h = let e : [] ≡ l' = cc in rw (← e)
  next_layer-length (a ∷ []) {l'} h =
      let (x, _, h₁) = bind-eq-ok (parent_hash a a) _ h in let e : x ∷ [] ≡ l' = cc in rw (← e)
  next_layer-length (a ∷ b ∷ rest) {l'} h =
      let (x, _, h₁) = bind-eq-ok (parent_hash a b) _ h in
      let (xs, e₂, h₂) = bind-eq-ok (next_layer rest) _ h₁ in
      let e : x ∷ xs ≡ l' = cc in rw (← e) (omega (arith, next_layer-length rest e₂))

  -- Any fuel from the length of the layer on gives one and the same result.
  pub root_loop_fuel :
      (f g : ℕ) (l : List Bytes) → length l ≤ f → length l ≤ g → root_loop f l ≡ root_loop g l
  unfolding root_loop
  root_loop_fuel zero zero l hf hg = refl
  root_loop_fuel zero (suc g) l hf hg = ground arith
  root_loop_fuel (suc f) zero l hf hg = ground arith
  root_loop_fuel (suc f) (suc g) l hf hg = elim (Bool-cases (ltb 1 (length l))) [
    | inr short ↦ rw short
    | inl long ↦ elim (Result-cases (next_layer l)) [
      | inr (e, p) ↦ rw (p, bind)
      | inl (l', p) ↦
          let halved = next_layer-length l p in
          let many = ltb→lt 1 (length l) long in
          rw (p, bind)
            (ap (λ x. if ltb 1 (length l) then x else first_hex l)
              (root_loop_fuel f g l' (omega arith) (omega arith)))
    ]
  ]

  parent_hash-ne : (a b : Bytes) → parent_hash a b ≢ err out_of_fuel
  unfolding parent_hash
  parent_hash-ne a b = bytes_fromhex-ne (sha256_hex (a ++ b))

  next_layer-ne : (l : List Bytes) → next_layer l ≢ err out_of_fuel
  unfolding next_layer
  next_layer-ne [] h = cc
  next_layer-ne (a ∷ []) h = elim (bind-eq-err (parent_hash a a) _ h) [
    | inl p ↦ parent_hash-ne a a p
    | inr (x, p, k) ↦ cc
  ]
  next_layer-ne (a ∷ b ∷ rest) h = elim (bind-eq-err (parent_hash a b) _ h) [
    | inl p ↦ parent_hash-ne a b p
    | inr (x, p, k) ↦ elim (bind-eq-err (next_layer rest) _ k) [
      | inl q ↦ next_layer-ne rest q
      | inr (xs, q, k') ↦ cc
    ]
  ]

  -- Fuel from the length of the layer on is never used up.
  pub root_loop_enough : (f : ℕ) (l : List Bytes) → length l ≤ f → root_loop f l ≢ err out_of_fuel
  unfolding root_loop
  root_loop_enough zero [] h e = cc
  root_loop_enough zero (a ∷ l) h e = absurd (omega arith)
  root_loop_enough (suc f) l h e = elim (Bool-cases (ltb 1 (length l))) [
    | inr short ↦ first_hex-ne l (rw (short, root_loop) at e)
    | inl long ↦
        let looped : bind (next_layer l) (root_loop f) ≡ err out_of_fuel =
          rw (long, root_loop) at e in
        elim (bind-eq-err (next_layer l) (root_loop f) looped) [
          | inl p ↦ next_layer-ne l p
          | inr (l', p, k) ↦
              let halved = next_layer-length l p in
              let many = ltb→lt 1 (length l) long in root_loop_enough f l' (omega arith) k
        ]
  ]
    where
      first_hex-ne : (l : List Bytes) → first_hex l ≢ err out_of_fuel
      first_hex-ne [] k = cc
      first_hex-ne (a ∷ l) k = cc
