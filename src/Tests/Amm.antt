-- ===== src/Tests/Amm.antt =====
-- packages/sdk/amm.ts at concrete reserves.
use ark_swap.Prelude.{
  ℕ, ◌≤◌, ◌≡◌, ◌↔◌, refl, none, some, ok, err, arith, Text, codes, lower, lower_idem, if◌then◌else◌,
  sym, ◌∙◌, inl, inr, Bool-cases,
}
use mathlib.Core.List.{flatten}
use mathlib.Core.Option.{some-injective}
use ark_swap.Prelude.Int.{pos}
use ark_swap.Amm.{
  get_amount_out, get_amount_in, minimum_received, maximum_sold, price_impact_bps, impact_of,
  insufficient_liquidity, insufficient_input_amount,
}
use ark_swap.Amm.Optimal.{
  KHolds, get_amount_out_optimal, get_amount_in_optimal, get_amount_out-get_amount_in,
}
use ark_swap.Amm.Contract.{contract_get_amount_out, contract_get_amount_out_iff}
use ark_swap.PairAddress.{Viem, IsChecksum}
use ark_swap.Tokens.{is_hex_address}

get_amount_out_optimal_example : KHolds 1_000_000 2_000_000 1000 1992 ↔ (1992 ≤ 1992)
unfolding get_amount_out
get_amount_out_optimal_example = get_amount_out_optimal 1000 1_000_000 2_000_000 1992 refl

get_amount_in_optimal_example :
    KHolds 1_000_000 2_000_000 251 500 × (¬ KHolds 1_000_000 2_000_000 249 500)
unfolding get_amount_in
get_amount_in_optimal_example = get_amount_in_optimal 500 1_000_000 2_000_000 249 refl (omega arith)

get_amount_out-get_amount_in_example :
    (out : ℕ) × (get_amount_out 251 1_000_000 2_000_000 ≡ ok out) × (500 ≤ out)
unfolding get_amount_in
get_amount_out-get_amount_in_example = get_amount_out-get_amount_in 500 1_000_000 2_000_000 refl

contract_get_amount_out_iff_example :
    (contract_get_amount_out 1000 1_000_000 2_000_000 ≡ ok 1992)
    ↔ (get_amount_out 1000 1_000_000 2_000_000 ≡ ok 1992)
contract_get_amount_out_iff_example =
    contract_get_amount_out_iff 1000 1_000_000 2_000_000 1992 (omega arith) (omega arith)
      (omega arith)

quotes_run :
    (get_amount_out 1000 1_000_000 2_000_000 ≡ ok 1992)
    × (get_amount_out 0 1 1 ≡ err insufficient_input_amount)
    × (get_amount_in 2_000_000 1_000_000 2_000_000 ≡ err insufficient_liquidity)
    × (price_impact_bps 1000 1_000_000 2_000_000 ≡ ok 40)
    × (minimum_received 1992 50 ≡ pos 1982)
    × (maximum_sold 251 50 ≡ 252)
unfolding get_amount_out get_amount_in price_impact_bps impact_of minimum_received maximum_sold
quotes_run = (refl, refl, refl, refl, refl, refl)

-- A stand-in for viem: an address is checked for its shape and put into lower case, and the hash is the
-- text itself.
abbrev pub plain_viem : Viem
plain_viem = record {
  get_address = λ a. if is_hex_address a then some (lower a) else none;
  keccak256 = λ s. s;
  encode_packed = λ types values. flatten values;
  pair_init_code_hash = codes "0x30820c342fc28c16c80e536d138c0c5290a90de3583c2a126a9e19b519432e74";
}

pub plain_viem-IsChecksum : IsChecksum plain_viem
plain_viem-IsChecksum = record {
  same = λ a c h. plain_same a h;
  unique = λ a b c d h k e. sym (plain_is a h) ∙ e ∙ plain_is b k;
}
  where
    plain_is : (a : Text) {c : Text} → plain_viem.get_address a ≡ some c → lower a ≡ c
    plain_is a {c} h = elim (Bool-cases (is_hex_address a)) [
      | inl e ↦ some-injective _ _ (rw e at h)
      | inr e ↦ absurd (none≢some (rw e at h))
    ]
      where
        none≢some : ¬ (none ≡ some c)
        none≢some k = cc

    plain_same : (a : Text) {c : Text} → plain_viem.get_address a ≡ some c → lower c ≡ lower a
    plain_same a h = rw (← plain_is a h) (lower_idem a)

abbrev pub usdc : Text
usdc = codes "0xC8d15f9A42Ee3107ab1257E38199e3Bf899dCfB3"

abbrev pub wkash : Text
wkash = codes "0x6792d2fD02d8A55c543F627d0e90526f9278C6d6"

abbrev pub factory : Text
factory = codes "0x594f74aDCa63Af06d10Ee06fEe8F237DBb560e06"
