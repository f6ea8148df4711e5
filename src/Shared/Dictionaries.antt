-- ===== src/Shared/Dictionaries.antt =====
-- A Python dictionary: its items in the order of insertion.
use mathlib.Core.Path.{◌≡◌, refl}
use mathlib.Core.Bool.{Bool, true, false}
use mathlib.Core.Option.{Option, none, some}
use mathlib.Core.List.{List, [], ◌∷◌, ◌++◌}
use native.Mathlib.Omega.{arith}
use blockchain_coin.Shared.Tests.{if◌then◌else◌}
use blockchain_coin.Shared.Equality.{Comparable, ◌==◌}

abbrev pub Dict {ℓ κ} : Type ℓ → Type κ → Type (ℓ ⊔ κ)
Dict K V = List (K × V)

module _ {ℓ κ} {K : Type ℓ} {V : Type κ} ⦃e : Comparable K⦄ where
  -- `d.get(k)`
  abbrev pub lookup : K → Dict K V → Option V
  lookup k [] = none
  lookup k (entry ∷ d) = if entry.0 == k then some entry.1 else lookup k d

  -- `k in d`
  abbrev pub contains : K → Dict K V → Bool
  contains k d = elim (lookup k d) [ none ↦ false | some v ↦ true ]

  -- `d[k] = v`
  abbrev pub insert : K → V → Dict K V → Dict K V
  insert k v [] = (k, v) ∷ []
  insert k v (entry ∷ d) = if entry.0 == k then (k, v) ∷ d else entry ∷ insert k v d

  -- `del d[k]`, where `k` is there
  abbrev pub erase : K → Dict K V → Dict K V
  erase k [] = []
  erase k (entry ∷ d) = if entry.0 == k then d else entry ∷ erase k d

  -- No key stands twice.
  abbrev pub Distinct : Dict K V → Type κ
  Distinct [] = Unit
  Distinct (entry ∷ d) = (lookup entry.0 d ≡ none) × Distinct d

  pub contains-eq-false : (k : K) (d : Dict K V) → contains k d ≡ false → lookup k d ≡ none
  contains-eq-false k d h = ground arith

  pub lookup-insert :
      (j k : K) (v : V) (d : Dict K V)
      → lookup j (insert k v d) ≡ (if k == j then some v else lookup j d)
  lookup-insert j k v [] = refl
  lookup-insert j k v (entry ∷ d) =
      ground
        (arith, e.same_iff entry.0 k, e.same_iff entry.0 j, e.same_iff k j, lookup-insert j k v d)

  -- A new key goes to the end.
  pub insert_new :
      (k : K) (v : V) (d : Dict K V) → lookup k d ≡ none → insert k v d ≡ d ++ (k, v) ∷ []
  insert_new k v [] h = refl
  insert_new k v (entry ∷ d) h = ground (arith, insert_new k v d)

  pub lookup-erase_ne :
      (j k : K) (d : Dict K V) → (k == j) ≡ false → lookup j (erase k d) ≡ lookup j d
  lookup-erase_ne j k [] h = refl
  lookup-erase_ne j k (entry ∷ d) h =
      ground
        (arith, e.same_iff entry.0 k, e.same_iff entry.0 j, e.same_iff k j, lookup-erase_ne j k d h)

  pub lookup-erase_self : (k : K) (d : Dict K V) → Distinct d → lookup k (erase k d) ≡ none
  lookup-erase_self k [] h = refl
  lookup-erase_self k (entry ∷ d) h =
      ground (arith, e.same_iff entry.0 k, lookup-erase_self k d h.1)

  pub insert-Distinct : (k : K) (v : V) (d : Dict K V) → Distinct d → Distinct (insert k v d)
  insert-Distinct k v [] h = (refl, tt)
  insert-Distinct k v (entry ∷ d) h = ground (
    arith,
    e.same_iff entry.0 k,
    e.same_iff k entry.0,
    insert-Distinct k v d h.1,
    lookup-insert entry.0 k v d,
  )

  lookup-erase-none : (j k : K) (d : Dict K V) → lookup j d ≡ none → lookup j (erase k d) ≡ none
  lookup-erase-none j k [] h = refl
  lookup-erase-none j k (entry ∷ d) h = ground (arith, lookup-erase-none j k d)

  pub erase-Distinct : (k : K) (d : Dict K V) → Distinct d → Distinct (erase k d)
  erase-Distinct k [] h = tt
  erase-Distinct k (entry ∷ d) h =
      ground (arith, erase-Distinct k d h.1, lookup-erase-none entry.0 k d h.0)

  lookup-append-none : (k : K) (xs ys : Dict K V) → lookup k (xs ++ ys) ≡ none → lookup k ys ≡ none
  lookup-append-none k [] ys h = h
  lookup-append-none k (entry ∷ xs) ys h = ground (arith, lookup-append-none k xs ys)

  -- A key further on is not among those before it.
  pub Distinct-append :
      (xs : Dict K V) (k : K) (v : V) (ys : Dict K V)
      → Distinct (xs ++ (k, v) ∷ ys)
      → lookup k xs ≡ none
  Distinct-append [] k v ys h = refl
  Distinct-append (entry ∷ xs) k v ys h =
      let later = lookup-append-none entry.0 xs ((k, v) ∷ ys) h.0 in
      ground
        (arith, later, e.same_iff entry.0 k, e.same_iff k entry.0, Distinct-append xs k v ys h.1)
