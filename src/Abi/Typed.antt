-- ===== src/Abi/Typed.antt =====
-- The calls of the swap form fit the ABI of the router.
use ark_swap.Prelude.{
  ℕ, ◌+◌, ◌*◌, ◌^◌, ◌<◌, ◌≤◌, ◌≡◌, refl, ◌∙◌, Bool, true, false, Option, none, some, [], Text,
  text_eq, codes, find, All, option_map, get_or, if◌then◌else◌, arith,
}
use ark_swap.Prelude.Int.{pos}
use ark_swap.SwapForm.Calls.{
  SwapCall, swap_exact_eth_for_tokens, swap_exact_tokens_for_eth, swap_exact_tokens_for_tokens,
  swap_eth_for_exact_tokens, swap_tokens_for_exact_eth, swap_tokens_for_exact_tokens, submit,
  call_exact_in, call_exact_out,
}
use ark_swap.SwapForm.Bounds.{spends, demands, path_of, recipient}
use ark_swap.Route.{SwapRoute}
use ark_swap.SwapForm.{CardInput}
use ark_swap.SwapForm.Bounds.{submit-Trades, submit-IsBounded, yield_bound}
use ark_swap.Router.Checks.{submit_inv}
use ark_swap.Abi.{
  AbiValue, address, addresses, integer, uint, AbiFunction, ContractCall, arg, Fits, Match,
}
use ark_swap.Abi.Router
use ark_swap.Abi.Router.{router_abi}
use ark_swap.Abi.Calls.{swap_arguments}

abbrev pub deadline_of : SwapCall → ℕ
deadline_of (swap_exact_eth_for_tokens f m p t d v) = d
deadline_of (swap_exact_tokens_for_eth f a m p t d) = d
deadline_of (swap_exact_tokens_for_tokens f a m p t d) = d
deadline_of (swap_eth_for_exact_tokens o p t d v) = d
deadline_of (swap_tokens_for_exact_eth o a p t d) = d
deadline_of (swap_tokens_for_exact_tokens o a p t d) = d

abbrev pub first_of : Option AbiValue → Option AbiValue → Option AbiValue
first_of none y = y
first_of (some x) y = some x

abbrev pub is_sent : Option ℕ → Bool
is_sent none = false
is_sent (some v) = true

-- What the call spends: its value, or the argument that names the amount.
abbrev pub paid : AbiFunction → ContractCall → Option AbiValue
paid f call =
    if f.payable
    then option_map (λ v. integer (pos v)) call.value
    else first_of (arg f.inputs call.args (codes "amountIn"))
        (arg f.inputs call.args (codes "amountInMax"))

abbrev pub wanted : AbiFunction → ContractCall → Option AbiValue
wanted f call =
    first_of (arg f.inputs call.args (codes "amountOutMin"))
      (arg f.inputs call.args (codes "amountOut"))

module _ (is_address : Text → Bool) where
  -- The parts of a call, each with an encoding.
  pub record IsEncodable (c : SwapCall) : Type 0 where
    pub cost : spends c < 2 ^ 256
    pub yield : Fits is_address (uint 256) (integer (demands c))
    pub along : All (λ a. is_address a ≡ true) (path_of c)
    pub payee : is_address (recipient c) ≡ true
    pub before : deadline_of c < 2 ^ 256

  -- The ABI has the function of the call, the arguments have the types of its inputs, only a payable function
  -- gets a value, and under the names of the inputs stand the parts of the swap.
  abbrev pub IsTyped : SwapCall → ContractCall → Type 0
  IsTyped c call =
      (f : AbiFunction) × (find (λ g. text_eq g.name call.function_name) router_abi ≡ some f)
      × Match is_address f.inputs call.args
      × (f.payable ≡ is_sent call.value)
      × (arg f.inputs call.args (codes "path") ≡ some (addresses (path_of c)))
      × (arg f.inputs call.args (codes "to") ≡ some (address (recipient c)))
      × (arg f.inputs call.args (codes "deadline") ≡ some (integer (pos (deadline_of c))))
      × (paid f call ≡ some (integer (pos (spends c))))
      × (wanted f call ≡ some (integer (demands c)))

  swap_arguments-IsTyped : (c : SwapCall) → IsEncodable c → IsTyped c (swap_arguments c)
  unfolding swap_arguments router_abi arg text_eq
  swap_arguments-IsTyped (swap_exact_eth_for_tokens true m p t d v) h = (
    Router.swap_exact_eth_for_tokens_supporting_fee_on_transfer_tokens,
    refl,
    (h.yield, (h.along, (h.payee, (h.before, tt)))),
    refl,
    refl,
    refl,
    refl,
    refl,
    refl,
  )
  swap_arguments-IsTyped (swap_exact_tokens_for_eth true a m p t d) h = (
    Router.swap_exact_tokens_for_eth_supporting_fee_on_transfer_tokens,
    refl,
    (h.cost, (h.yield, (h.along, (h.payee, (h.before, tt))))),
    refl,
    refl,
    refl,
    refl,
    refl,
    refl,
  )
  swap_arguments-IsTyped (swap_exact_tokens_for_tokens true a m p t d) h = (
    Router.swap_exact_tokens_for_tokens_supporting_fee_on_transfer_tokens,
    refl,
    (h.cost, (h.yield, (h.along, (h.payee, (h.before, tt))))),
    refl,
    refl,
    refl,
    refl,
    refl,
    refl,
  )
  swap_arguments-IsTyped (swap_exact_eth_for_tokens false m p t d v) h = (
    Router.swap_exact_eth_for_tokens,
    refl,
    (h.yield, (h.along, (h.payee, (h.before, tt)))),
    refl,
    refl,
    refl,
    refl,
    refl,
    refl,
  )
  swap_arguments-IsTyped (swap_exact_tokens_for_eth false a m p t d) h = (
    Router.swap_exact_tokens_for_eth,
    refl,
    (h.cost, (h.yield, (h.along, (h.payee, (h.before, tt))))),
    refl,
    refl,
    refl,
    refl,
    refl,
    refl,
  )
  swap_arguments-IsTyped (swap_exact_tokens_for_tokens false a m p t d) h = (
    Router.swap_exact_tokens_for_tokens,
    refl,
    (h.cost, (h.yield, (h.along, (h.payee, (h.before, tt))))),
    refl,
    refl,
    refl,
    refl,
    refl,
    refl,
  )
  swap_arguments-IsTyped (swap_eth_for_exact_tokens o p t d v) h = (
    Router.swap_eth_for_exact_tokens,
    refl,
    (h.yield, (h.along, (h.payee, (h.before, tt)))),
    refl,
    refl,
    refl,
    refl,
    refl,
    refl,
  )
  swap_arguments-IsTyped (swap_tokens_for_exact_eth o a p t d) h = (
    Router.swap_tokens_for_exact_eth,
    refl,
    (h.yield, (h.cost, (h.along, (h.payee, (h.before, tt))))),
    refl,
    refl,
    refl,
    refl,
    refl,
    refl,
  )
  swap_arguments-IsTyped (swap_tokens_for_exact_tokens o a p t d) h = (
    Router.swap_tokens_for_exact_tokens,
    refl,
    (h.yield, (h.cost, (h.along, (h.payee, (h.before, tt))))),
    refl,
    refl,
    refl,
    refl,
    refl,
    refl,
  )

  -- What the form and the chain hold to: addresses that viem takes, and numbers well within a word.
  pub record IsSound (i : CardInput) (r : SwapRoute) : Type 0 where
    pub along : All (λ a. is_address a ≡ true) r.path
    pub payee : is_address (get_or i.address []) ≡ true
    pub sold : r.amount_in < 2 ^ 255
    pub bought : r.amount_out < 2 ^ 256
    pub before : get_or i.deadline 0 < 2 ^ 256
    pub tolerance : i.slippage_bps ≤ 10_000

  deadline_kept :
      (i : CardInput) (r : SwapRoute) {c : SwapCall}
      → i.route ≡ some r
      → submit i ≡ some c
      → deadline_of c ≡ get_or i.deadline 0
  unfolding call_exact_in call_exact_out
  deadline_kept i r er e = ground (arith, submit_inv i r er e)

  -- A swap that the form sends has an encoding: the router's ABI lists its function, every argument fits its
  -- type, the value is sent exactly to the payable functions, and under the ABI's names stand the route, the
  -- account, the deadline and the amounts.
  pub submit-IsTyped :
      (i : CardInput) (r : SwapRoute) {c : SwapCall}
      → i.route ≡ some r
      → submit i ≡ some c
      → IsSound i r
      → IsTyped c (swap_arguments c)
  submit-IsTyped i r {c} er e h =
      let t = submit-Trades i r er e in
      let (_, _, cost, _) = submit-IsBounded i r er e h.tolerance in
      let (n, least, _, below) = yield_bound i r h.tolerance in
      let twice : r.amount_in * (10_000 + i.slippage_bps) ≤ r.amount_in * 20_000 =
        grind (arith, h.tolerance) in
      swap_arguments-IsTyped c (record {
        cost = omega (arith, cost, twice, h.sold);
        yield = rw (t.yield ∙ least) (omega (arith, below, h.bought));
        along = rw t.along h.along;
        payee = rw t.payee h.payee;
        before = rw (deadline_kept i r er e) h.before;
      })
