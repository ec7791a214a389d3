-- ===== src/Router.antt =====
-- packages/contracts/contracts/periphery/ArkSwapRouter02.sol and libraries/ArkSwapLibrary.sol: what the router
-- checks of a swap before it moves tokens. The pairs are an argument, `none` where no pair has been
-- created and the call of it reverts; addresses are texts, compared without regard to case.
pub mod Outputs
pub mod Inputs
pub mod Quotes
pub mod Amounts
pub mod Candidates
pub mod Checks
pub mod Accepted
use ark_swap.Prelude.{
  ℕ, zero, suc, true, false, ◌+◌, ◌-◌, ◌<◌, Bool, Option, none, some, List, [], ◌∷◌, ◌++◌, map,
  Text, text_eq, lower, ltb, leb, ◌==◌, if◌then◌else◌, Result, ok, err, ◌>>=◌, ◌>>◌, require,
  length, get_elem?, set,
}
use ark_swap.Prelude.Int.{ℤ, pos, negsuc}
use ark_swap.Amm.Contract.{Revert, contract_get_amount_out, contract_get_amount_in}
use ark_swap.SwapForm.Calls.{
  SwapCall, swap_exact_eth_for_tokens, swap_exact_tokens_for_eth, swap_exact_tokens_for_tokens,
  swap_eth_for_exact_tokens, swap_tokens_for_exact_eth, swap_tokens_for_exact_tokens,
}

pub data RouterError : Type 0 where
  library : Revert → RouterError
  no_pair : RouterError
  index_out_of_bounds : RouterError
  invalid_path : RouterError
  expired : RouterError
  too_little_output : RouterError
  excessive_input : RouterError
  out_of_fuel : RouterError
  not_encodable : RouterError

-- `getReserves(factory, tokenA, tokenB)`, in the order of the tokens.
abbrev pub Reserves : Type 0
Reserves = Text → Text → Option (ℕ × ℕ)

abbrev pub lift_library : Result Revert ℕ → Result RouterError ℕ
lift_library (ok a) = ok a
lift_library (err e) = err (library e)

abbrev pub found {ℓ} : {A : Type ℓ} → RouterError → Option A → Result RouterError A
found e none = err e
found e (some a) = ok a

-- An access of an array, which halts beyond its end.
abbrev pub at_index {ℓ} : {A : Type ℓ} → List A → ℕ → Result RouterError A
at_index l i = found index_out_of_bounds (get_elem? l i)

abbrev pub zeros : List Text → List ℕ
zeros path = map (λ a. 0) path

-- `path[i] == WETH`.
abbrev pub starts_at : Text → List Text → Result RouterError (Unit {0})
starts_at weth path = do a ← at_index path 0; require (text_eq (lower a) (lower weth)) invalid_path

abbrev pub ends_at : Text → List Text → Result RouterError (Unit {0})
ends_at weth path = do
  a ← at_index path (length path - 1)
  require (text_eq (lower a) (lower weth)) invalid_path

-- The modifier `ensure`, at the time `now`.
abbrev pub ensure : (deadline now : ℕ) → Result RouterError (Unit {0})
ensure deadline now = require (leb now deadline) expired

-- A negative amount has no encoding as `uint256`.
abbrev pub encoded : ℤ → Result RouterError ℕ
encoded (pos n) = ok n
encoded (negsuc n) = err not_encodable

module _ (reserves : Reserves) where
  abbrev pub pair_out : ℕ → Text → Text → Result RouterError ℕ
  pair_out amount a b = do
    r ← found no_pair (reserves a b)
    lift_library (contract_get_amount_out amount (r.0) (r.1))

  abbrev pub pair_in : ℕ → Text → Text → Result RouterError ℕ
  pair_in amount a b = do
    r ← found no_pair (reserves a b)
    lift_library (contract_get_amount_in amount (r.0) (r.1))

  -- The body of the loop of `getAmountsOut` at `i`.
  unfoldable pub out_step : List Text → ℕ → List ℕ → Result RouterError (List ℕ)
  out_step path i amounts = do
    a ← at_index path i
    b ← at_index path (i + 1)
    amount ← at_index amounts i
    next ← pair_out amount a b
    ok (set amounts (i + 1) next)

  -- `for (uint i; i < path.length - 1; i++)`.
  unfoldable pub out_loop : ℕ → List Text → ℕ → List ℕ → Result RouterError (List ℕ)
  out_loop zero path i amounts = err out_of_fuel
  out_loop (suc fuel) path i amounts =
      let rest = out_step path i amounts >>= out_loop fuel path (i + 1) in
      if ltb i (length path - 1) then rest else ok amounts

  -- The length of the path is fuel enough.
  unfoldable pub get_amounts_out : ℕ → List Text → Result RouterError (List ℕ)
  get_amounts_out amount_in path = do
    require (leb 2 (length path)) invalid_path
    out_loop (length path) path 0 (set (zeros path) 0 amount_in)

  -- The body of the loop of `getAmountsIn`, at `j + 1`.
  unfoldable pub in_step : List Text → ℕ → List ℕ → Result RouterError (List ℕ)
  in_step path j amounts = do
    a ← at_index path j
    b ← at_index path (j + 1)
    amount ← at_index amounts (j + 1)
    before ← pair_in amount a b
    ok (set amounts j before)

  -- `for (uint i = path.length - 1; i > 0; i--)`.
  unfoldable pub in_loop : List Text → ℕ → List ℕ → Result RouterError (List ℕ)
  in_loop path zero amounts = ok amounts
  in_loop path (suc j) amounts = in_step path j amounts >>= in_loop path j

  unfoldable pub get_amounts_in : ℕ → List Text → Result RouterError (List ℕ)
  get_amounts_in amount_out path = do
    require (leb 2 (length path)) invalid_path
    in_loop path (length path - 1) (set (zeros path) (length path - 1) amount_out)

  unfoldable pub sell : ℕ → ℕ → List Text → Result RouterError (List ℕ)
  sell amount_in amount_out_min path = do
    amounts ← get_amounts_out amount_in path
    last ← at_index amounts (length amounts - 1)
    require (leb amount_out_min last) too_little_output
    ok amounts

  unfoldable pub buy : ℕ → ℕ → List Text → Result RouterError (List ℕ)
  buy amount_out amount_in_max path = do
    amounts ← get_amounts_in amount_out path
    first ← at_index amounts 0
    require (leb first amount_in_max) excessive_input
    ok amounts

  -- The amounts along the path that a swap moves. What the variants for taxed transfers do depends on
  -- the tokens, and is the argument `taxed`.
  unfoldable pub run_swap :
      (taxed : SwapCall → Result RouterError (List ℕ)) (weth : Text) (now : ℕ)
      → SwapCall
      → Result RouterError (List ℕ)
  run_swap taxed weth now (swap_exact_eth_for_tokens true m path to deadline value) =
      taxed (swap_exact_eth_for_tokens true m path to deadline value)
  run_swap taxed weth now (swap_exact_eth_for_tokens false m path to deadline value) = do
    least ← encoded m
    ensure deadline now
    starts_at weth path
    sell value least path
  run_swap taxed weth now (swap_exact_tokens_for_eth true a m path to deadline) =
      taxed (swap_exact_tokens_for_eth true a m path to deadline)
  run_swap taxed weth now (swap_exact_tokens_for_eth false a m path to deadline) = do
    least ← encoded m
    ensure deadline now
    ends_at weth path
    sell a least path
  run_swap taxed weth now (swap_exact_tokens_for_tokens true a m path to deadline) =
      taxed (swap_exact_tokens_for_tokens true a m path to deadline)
  run_swap taxed weth now (swap_exact_tokens_for_tokens false a m path to deadline) = do
    least ← encoded m
    ensure deadline now
    sell a least path
  run_swap taxed weth now (swap_eth_for_exact_tokens out path to deadline value) = do
    ensure deadline now
    starts_at weth path
    buy out value path
  run_swap taxed weth now (swap_tokens_for_exact_eth out most path to deadline) = do
    ensure deadline now
    ends_at weth path
    buy out most path
  run_swap taxed weth now (swap_tokens_for_exact_tokens out most path to deadline) = do
    ensure deadline now
    buy out most path
