-- ===== src/Tests/Router.antt =====
-- The router on the pool and the swap of the other tests.
use ark_swap.Prelude.{
  ℕ, ◌≡◌, ◌<◌, ◌^◌, text_lt, refl, ap, some, none, List, [], ◌∷◌, Text, arith, ok, err, lower,
  text_eq, Result, Bool-cases, inl, inr,
}
use mathlib.Core.Option.{some-injective}
use mathlib.Core.List.{flatten}
use ark_swap.Tokens.{routed_address, is_hex_address}
use ark_swap.Amm.{get_amount_out, minimum_received}
use ark_swap.PairAddress.{compute_pair_address, sort_tokens, create2_address, checked}
use ark_swap.Route.{usable_hubs, other_hubs, addressed_hubs, candidates, through_pairs}
use ark_swap.Route.Search.{
  input_candidates, input_pools, pair_keys, path_keys, search_route, use_swap_route, best_from,
  evaluate, hops_of, hops_from, quote_hops, quote_side,
}
use ark_swap.SwapForm.{swap_quote}
use ark_swap.Route.Quoting.{
  PoolReserves, oriented, get_pool, read_pools, leg, step_in, walk_in, quote_exact_in,
}
use ark_swap.SwapForm.Calls.{SwapCall, submit, call_exact_in}
use ark_swap.Router.{Reserves, RouterError, no_pair, run_swap, get_amounts_out}
use ark_swap.Router.Outputs.{Ends, get_amounts_out-Ends}
use ark_swap.Router.Quotes.{IsUnchanged}
use ark_swap.Router.Amounts.{Moves}
use ark_swap.Router.Accepted.{IsCurrent, submit-run_swap}
use ark_swap.Abi.Calls.{swap_arguments}
use ark_swap.Abi.Typed.{IsTyped, submit-IsTyped}
use ark_swap.Tests.Amm.{plain_viem, usdc, wkash, factory}
use ark_swap.Tests.Route.{input, pools, paths, found, pair_key}
use ark_swap.Tests.SwapForm.{card, route, sent}

abbrev pool : PoolReserves
pool = record { token0 = wkash; reserve0 = 1_000_000; reserve1 = 2_000_000 }

abbrev pairs : Reserves
pairs a b = let o = oriented pool a in some (o.reserve_in, o.reserve_out)

untaxed : SwapCall → Result RouterError (List ℕ)
untaxed c = err no_pair

get_amounts_out-Ends_example : Ends 2 (get_amounts_out pairs 1000 (wkash ∷ usdc ∷ []))
get_amounts_out-Ends_example = get_amounts_out-Ends pairs 1000 (wkash ∷ usdc ∷ [])

only_pool : (key : Text) {p : PoolReserves} → get_pool key pools ≡ some p → pool ≡ p
unfolding get_pool
only_pool key {p} e = elim (Bool-cases (text_eq pair_key key)) [
  | inl hit ↦ some-injective _ _ (rw hit at e)
  | inr missed ↦ absurd (none≢some (rw missed at e))
]
  where
    none≢some : ¬ (none ≡ some p)
    none≢some k = cc

small_pairs : (a b : Text) {r s : ℕ} → pairs a b ≡ some (r, s) → (r < 2 ^ 112) × (s < 2 ^ 112)
unfolding oriented
small_pairs a b e = elim (Bool-cases (text_eq (lower wkash) (lower a))) [
  | inl hit ↦ ground arith
  | inr missed ↦ ground arith
]

pairs-IsUnchanged : IsUnchanged plain_viem factory pools pairs
pairs-IsUnchanged = record {
  same = λ a b derived read.
      ap (λ (p : PoolReserves). some ((oriented p a).reserve_in, (oriented p a).reserve_out))
        (only_pool _ read);
  small = small_pairs;
}

current : IsCurrent plain_viem input card factory wkash 1000 1100 paths pools pairs
unfolding input_candidates usable_hubs other_hubs addressed_hubs candidates through_pairs
    routed_address text_eq lower input_pools pair_keys path_keys compute_pair_address sort_tokens
    checked create2_address read_pools is_hex_address text_lt flatten
current = record {
  configured = refl;
  nonempty = refl;
  wrapped = refl;
  same_in = refl;
  same_out = refl;
  same_side = refl;
  typed = refl;
  positive = omega arith;
  small = omega arith;
  paths = refl;
  read = refl;
  unchanged = pairs-IsUnchanged;
  untaxed = refl;
  in_time = omega arith;
  tolerance = omega arith;
}

submit-run_swap_example :
    (amounts : List ℕ) × (run_swap pairs untaxed wkash 1100 sent ≡ ok amounts)
    × Moves amounts 1000 1992
unfolding input_candidates usable_hubs other_hubs addressed_hubs candidates through_pairs
    routed_address text_eq lower input_pools pair_keys path_keys compute_pair_address sort_tokens
    checked create2_address read_pools use_swap_route search_route best_from evaluate hops_of
    hops_from quote_hops quote_side quote_exact_in walk_in step_in leg get_pool oriented
    get_amount_out is_hex_address text_lt flatten submit swap_quote call_exact_in minimum_received
submit-run_swap_example =
    submit-run_swap plain_viem input card factory wkash 1000 1100 paths pools pairs untaxed current
      route {out = found} {c = sent} refl refl refl refl

submit-IsTyped_example : IsTyped is_hex_address sent (swap_arguments sent)
unfolding is_hex_address submit swap_quote call_exact_in minimum_received
submit-IsTyped_example = submit-IsTyped is_hex_address card route {c = sent} refl refl (record {
  along = (refl, (refl, tt));
  payee = refl;
  sold = omega arith;
  bought = omega arith;
  before = omega arith;
  tolerance = omega arith;
})
