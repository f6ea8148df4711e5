-- ===== src/Network/Chain.antt =====
-- What `validate_header_chain` (blockchaincoin/network.py) asks of an ordered batch of headers.
use blockchain_coin.Shared.{
  ◌≡◌, ◌↔◌, refl, Bool, true, false, not, Option, none, some, List, [], ◌∷◌, ℤ, pos, ◌+ℤ◌,
  eqb_ℤ_iff, ok, raise_if, bind-eq-ok, raise_if-eq-ok, arith,
}
use blockchain_coin.Text.{Text, text_eq_iff, starts_with}
use blockchain_coin.Crypto.{Primitives}
use blockchain_coin.Consensus.Blocks.{work_target}
use blockchain_coin.Network.Payloads.{BlockHeader}
use blockchain_coin.Network.Headers.{
  check_chain, hash_of_header, is_bad_anchor, is_hash, is_out_of_sequence, is_unlinked,
  validate_header_chain,
}

-- The hash before a header, where there is one, is the one that it names.
unfoldable pub Names : Option Text → BlockHeader → Type 0
Names none h = Unit {0}
Names (some prior) h = h.previous_hash ≡ prior

-- The height before a header, where there is one, is one less.
unfoldable pub Succeeds : Option ℤ → BlockHeader → Type 0
Succeeds none h = Unit {0}
Succeeds (some prior) h = h.height ≡ prior +ℤ pos 1

unfoldable pub IsAnchor : Option Text → Type 0
IsAnchor none = Unit {0}
IsAnchor (some hash) = is_hash hash ≡ true

not-false : (b : Bool) → not b ≡ false → b ≡ true
not-false true h = refl
not-false false h = absurd (cc)

is_unlinked_iff :
    (prior : Option Text) (h : BlockHeader) → (is_unlinked prior h ≡ false) ↔ Names prior h
unfolding Names
is_unlinked_iff none h = (λ e. tt, λ u. refl)
is_unlinked_iff (some prior) h = ground (arith, text_eq_iff h.previous_hash prior)

is_out_of_sequence_iff :
    (prior : Option ℤ) (h : BlockHeader) → (is_out_of_sequence prior h ≡ false) ↔ Succeeds prior h
unfolding Succeeds
is_out_of_sequence_iff none h = (λ e. tt, λ u. refl)
is_out_of_sequence_iff (some prior) h = ground (arith, eqb_ℤ_iff h.height (prior +ℤ pos 1))

is_bad_anchor_iff : (anchor : Option Text) → (is_bad_anchor anchor ≡ false) ↔ IsAnchor anchor
unfolding IsAnchor
is_bad_anchor_iff none = (λ e. tt, λ u. refl)
is_bad_anchor_iff (some hash) = ground arith

module _ ⦃prim : Primitives⦄ where
  -- Each header's hash meets the header's target, and each names the one before it and is one higher.
  unfoldable pub IsChain : Option Text → Option ℤ → List BlockHeader → Type 0
  IsChain prior_hash prior_height [] = Unit {0}
  IsChain prior_hash prior_height (h ∷ hs) =
      (hash : Text) × (hash_of_header h ≡ ok hash)
      × (starts_with hash (work_target h.difficulty) ≡ true)
      × Names prior_hash h
      × Succeeds prior_height h
      × IsChain (some hash) (some h.height) hs

  check_chain-IsChain :
      (prior_hash : Option Text) (prior_height : Option ℤ) (hs : List BlockHeader)
      → check_chain prior_hash prior_height hs ≡ ok tt
      → IsChain prior_hash prior_height hs
  unfolding check_chain IsChain
  check_chain-IsChain prior_hash prior_height [] e = tt
  check_chain-IsChain prior_hash prior_height (h ∷ hs) e =
      let (hash, hashed, e₁) = bind-eq-ok (hash_of_header h) _ e in
      let (u, worked, e₂) =
        bind-eq-ok (raise_if (not (starts_with hash (work_target h.difficulty))) _) _ e₁ in
      let (v, linked, e₃) = bind-eq-ok (raise_if (is_unlinked prior_hash h) _) _ e₂ in
      let (w, sequential, e₄) = bind-eq-ok (raise_if (is_out_of_sequence prior_height h) _) _ e₃ in
      (
        hash,
        hashed,
        not-false _ (raise_if-eq-ok _ _ worked),
        (is_unlinked_iff prior_hash h).0 (raise_if-eq-ok _ _ linked),
        (is_out_of_sequence_iff prior_height h).0 (raise_if-eq-ok _ _ sequential),
        check_chain-IsChain (some hash) (some h.height) hs e₄,
      )

  IsChain-check_chain :
      (prior_hash : Option Text) (prior_height : Option ℤ) (hs : List BlockHeader)
      → IsChain prior_hash prior_height hs
      → check_chain prior_hash prior_height hs ≡ ok tt
  unfolding check_chain IsChain
  IsChain-check_chain prior_hash prior_height [] c = refl
  IsChain-check_chain prior_hash prior_height (h ∷ hs) (hash, hashed, worked, names, succeeds, c) =
      rw
        (
          hashed,
          worked,
          (is_unlinked_iff prior_hash h).1 names,
          (is_out_of_sequence_iff prior_height h).1 succeeds,
        )
        (IsChain-check_chain (some hash) (some h.height) hs c)

  -- `validate_header_chain` returns the headers that it was given exactly if the anchor, where there is
  -- one, is a hash, each header's hash meets the header's target, the first header names the anchor, and
  -- every later one names the hash of the header before it and is one higher.
  pub validate_header_chain_iff :
      (hs : List BlockHeader) (anchor : Option Text)
      → (validate_header_chain hs anchor ≡ ok hs) ↔ (IsAnchor anchor × IsChain anchor none hs)
  unfolding validate_header_chain
  validate_header_chain_iff hs anchor = (
    λ e.
        let (u, anchored, e₁) = bind-eq-ok (raise_if (is_bad_anchor anchor) _) _ e in
        let (v, checked, e₂) = bind-eq-ok (check_chain anchor none hs) _ e₁ in
        (
          (is_bad_anchor_iff anchor).0 (raise_if-eq-ok _ _ anchored),
          check_chain-IsChain anchor none hs checked,
        ),
    λ (a, c). rw ((is_bad_anchor_iff anchor).1 a, IsChain-check_chain anchor none hs c) refl,
  )
