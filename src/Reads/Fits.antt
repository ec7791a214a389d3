-- ===== src/Reads/Fits.antt =====
-- The batched reads of apps/web/src/hooks against the ABIs that they name.
use ark_swap.Prelude.{
  ◌≡◌, refl, ℕ, zero, suc, ◌+◌, ◌^◌, ◌≤◌, arith, Bool, true, some, List, [], ◌∷◌, Text, text_eq,
  All, All-append,
}
use ark_swap.Abi.{AbiType, AbiValue, Fits, ViewFunction}
use ark_swap.Abi.Pair
use ark_swap.Abi.Pair.{pair_abi}
use ark_swap.Abi.Factory
use ark_swap.Abi.Factory.{factory_abi}
use ark_swap.Abi.Erc20
use ark_swap.Abi.Erc20.{erc20_abi}
use ark_swap.Reads.{
  Request, flat_map, pair_requests, detail_requests, meta_requests, route_requests, state_requests,
}
use ark_swap.Reads.Encoded.{abi_of, function_name, arguments, function_of}

module _ (is_address : Text → Bool) where
  abbrev pub Takes : List AbiType → List AbiValue → Type 0
  Takes [] [] = Unit
  Takes (t ∷ ts) (v ∷ vs) = Fits is_address t v × Takes ts vs
  Takes _ _ = ⊥

  -- The request is of an address, its ABI has a view function of the name, and the arguments have the types
  -- of its inputs.
  abbrev pub IsFit : Request → Type 0
  IsFit r =
      (is_address r.address ≡ true)
      × (f : ViewFunction) × (function_of r.reading ≡ some f)
      × Takes f.inputs (arguments r.reading)
      × (f.is_view ≡ true)

  flat_map-IsFit :
      (f : Text → List Request)
      → ((a : Text) → is_address a ≡ true → All IsFit (f a))
      → (l : List Text) → All (λ a. is_address a ≡ true) l
      → All IsFit (flat_map f l)
  flat_map-IsFit f h [] v = tt
  flat_map-IsFit f h (a ∷ l) (e, v) =
      All-append IsFit (f a) (flat_map f l) (h a e) (flat_map-IsFit f h l v)

  pub pair_requests-IsFit :
      (factory : Text) (i n : ℕ)
      → is_address factory ≡ true
      → i + n ≤ 2 ^ 256
      → All IsFit (pair_requests factory i n)
  unfolding abi_of function_name arguments factory_abi text_eq
  pair_requests-IsFit factory i zero e h = tt
  pair_requests-IsFit factory i (suc n) e h = (
    (e, Factory.all_pairs, refl, (omega (arith, h), tt), refl),
    pair_requests-IsFit factory (suc i) n e (omega (arith, h)),
  )

  module _ (pairs : List Text) (valid : All (λ a. is_address a ≡ true) pairs) where
    pub detail_requests-IsFit : All IsFit (flat_map detail_requests pairs)
    unfolding abi_of function_name arguments pair_abi text_eq
    detail_requests-IsFit =
        flat_map-IsFit detail_requests
          (λ a e. (
            (e, Pair.token0, refl, tt, refl),
            (
              (e, Pair.token1, refl, tt, refl),
              (
                (e, Pair.get_reserves, refl, tt, refl),
                ((e, Pair.total_supply, refl, tt, refl), tt),
              ),
            ),
          ))
          pairs valid

    pub meta_requests-IsFit : All IsFit (flat_map meta_requests pairs)
    unfolding abi_of function_name arguments erc20_abi text_eq
    meta_requests-IsFit =
        flat_map-IsFit meta_requests
          (λ a e. (
            (e, Erc20.symbol, refl, tt, refl),
            ((e, Erc20.decimals, refl, tt, refl), ((e, Erc20.name, refl, tt, refl), tt)),
          ))
          pairs valid

    pub route_requests-IsFit : All IsFit (flat_map route_requests pairs)
    unfolding abi_of function_name arguments pair_abi text_eq
    route_requests-IsFit =
        flat_map-IsFit route_requests
          (λ a e. ((e, Pair.get_reserves, refl, tt, refl), ((e, Pair.token0, refl, tt, refl), tt)))
          pairs valid

  pub state_requests-IsFit :
      (factory derived a b : Text)
      → All (λ x. is_address x ≡ true) (factory ∷ derived ∷ a ∷ b ∷ [])
      → All IsFit (state_requests factory derived a b)
  unfolding abi_of function_name arguments pair_abi factory_abi text_eq
  state_requests-IsFit factory derived a b (f, (d, (ha, (hb, _)))) = (
    (f, Factory.get_pair, refl, (ha, (hb, tt)), refl),
    (
      (d, Pair.get_reserves, refl, tt, refl),
      (
        (d, Pair.token0, refl, tt, refl),
        ((d, Pair.token1, refl, tt, refl), ((d, Pair.total_supply, refl, tt, refl), tt)),
      ),
    ),
  )
