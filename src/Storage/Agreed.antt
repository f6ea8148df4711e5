-- ===== src/Storage/Agreed.antt =====
-- `require_chain_parameters` (blockchaincoin/storage.py) on rows that `save_chain_parameters` has written.
use blockchain_coin.Shared.{
  ◌≡◌, ◌≢◌, ◌↔◌, refl, sym, Bool, true, some, eqb_ℤ_iff, ok, err, arith, Bool-cases, Result-cases,
  inl, inr, subst,
}
use blockchain_coin.Text.{text_eq}
use blockchain_coin.Json.{canonical_json}
use blockchain_coin.Crypto.{Primitives}
use blockchain_coin.Storage.Parameters.{
  ChainParameters, parameters_to_dict, parameters_eq, Metadata, no_metadata, parameters_missing,
  parameters_differ, Reader, value_at, int_of_value, int_at, parameters_of_fields,
  parameters_from_dict, load_chain_parameters, chain_id_of, save_chain_parameters,
  require_chain_parameters,
}

parameters_eq_iff : (p q : ChainParameters) → (parameters_eq p q ≡ true) ↔ (p ≡ q)
unfolding parameters_eq
parameters_eq_iff p q = ground (
  arith,
  eqb_ℤ_iff p.difficulty q.difficulty,
  eqb_ℤ_iff p.block_subsidy q.block_subsidy,
  eqb_ℤ_iff p.max_money q.max_money,
)

parameters_from_dict-parameters_to_dict :
    (reader : Reader) (p : ChainParameters)
    → parameters_from_dict reader (parameters_to_dict p) ≡ some p
unfolding parameters_from_dict parameters_to_dict parameters_of_fields int_at value_at int_of_value
    text_eq
parameters_from_dict-parameters_to_dict reader p = refl

module _ ⦃prim : Primitives⦄ where
  load_chain_parameters-saved :
      (reader : Reader) (p : ChainParameters) (rows saved : Metadata)
      → reader.json_loads (canonical_json (parameters_to_dict p)) ≡ some (parameters_to_dict p)
      → save_chain_parameters p rows ≡ ok saved
      → load_chain_parameters reader saved ≡ ok (some p)
  unfolding load_chain_parameters save_chain_parameters
  load_chain_parameters-saved reader p rows saved reads h = elim (Result-cases (chain_id_of p)) [
    | inr (x, e) ↦ absurd (cc (rw (e, save_chain_parameters) at h))
    | inl (id, e) ↦
        let made : Metadata = record {
          chain_parameters = some (canonical_json (parameters_to_dict p));
          chain_id = some id;
        } in
        let same : made ≡ saved = cc (rw (e, save_chain_parameters) at h) in
        subst (λ m. load_chain_parameters reader m ≡ ok (some p)) same
          (rw (load_chain_parameters, reads, parameters_from_dict-parameters_to_dict reader p) refl)
  ]

  -- Where `json.loads` reads back the text of these parameters, what `save_chain_parameters` has written
  -- of them lets `require_chain_parameters` of the same parameters pass, with nothing written, and makes it
  -- raise for any others, whether the store has a tip or not; and on a store with a tip it raises where no
  -- parameters were written.
  pub require_chain_parameters-saved :
      (reader : Reader) (p : ChainParameters) (rows saved : Metadata) (has_tip : Bool)
      → reader.json_loads (canonical_json (parameters_to_dict p)) ≡ some (parameters_to_dict p)
      → save_chain_parameters p rows ≡ ok saved
      → (require_chain_parameters reader has_tip p saved ≡ ok saved)
        × ((q : ChainParameters)
            → q ≢ p
            → require_chain_parameters reader has_tip q saved ≡ err parameters_differ)
        × ((q : ChainParameters)
            → require_chain_parameters reader true q no_metadata ≡ err parameters_missing)
  unfolding require_chain_parameters load_chain_parameters
  require_chain_parameters-saved reader p rows saved has_tip reads h =
      let loaded = load_chain_parameters-saved reader p rows saved reads h in
      (
        rw (loaded, require_chain_parameters, (parameters_eq_iff p p).1 refl) refl,
        λ q apart. elim (Bool-cases (parameters_eq p q)) [
          | inl e ↦ absurd (apart (sym ((parameters_eq_iff p q).0 e)))
          | inr e ↦ rw (loaded, require_chain_parameters, e) refl
        ],
        λ q. refl,
      )
