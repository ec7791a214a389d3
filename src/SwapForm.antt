-- ===== src/SwapForm.antt =====
-- apps/web/src/state/swap.tsx, the state of the swap form, and apps/web/src/components/SwapCard.tsx,
-- what the form shows and which call of the router it sends. What the hooks return to a rendering is
-- an argument; `deadlineFromNow` reads the clock and is the argument `deadline`, `none` where it throws.
pub mod Calls
pub mod Bounds
pub mod Button
pub mod Funds
pub mod View
pub mod Shown
use ark_swap.Prelude.{
  ℕ, Bool, true, false, not, ◌&&◌, ◌||◌, Option, none, some, List, [], ◌∷◌, Text, codes, is_set,
  is_empty, ltb, get_or, if◌then◌else◌, ◌>>=?◌, option_map,
}
use ark_swap.Prelude.Int.{ℤ, pos}
use ark_swap.Tokens.{Token, kash, same_token}
use ark_swap.Amm.{
  minimum_received, maximum_sold, ImpactSeverity, calm, warn, high, severe, impact_severity,
}
use ark_swap.Route.{SwapSide, exact_in, exact_out, SwapRoute}
use ark_swap.Allowance.{AllowanceInput, needs_approval}

pub record Typed : Type 0 where
  pub side : SwapSide
  pub value : Text

pub record SwapState : Type 0 where
  pub token_in : Token
  pub token_out : Token
  pub typed : Typed

-- `usd` is `MUSDC`.
abbrev pub initial : Option Token → SwapState
initial usd = record {
  token_in = kash;
  token_out = get_or usd kash;
  typed = record { side = exact_in; value = [] };
}

abbrev pub other_side : SwapSide → SwapSide
other_side exact_in = exact_out
other_side exact_out = exact_in

unfoldable pub flip : SwapState → SwapState
flip s = record {
  token_in = s.token_out;
  token_out = s.token_in;
  typed = record { side = other_side (s.typed).side; value = (s.typed).value };
}

-- What a rendering of the card works on.
pub record CardInput : Type 0 where
  pub form : SwapState
  pub amount : Option ℕ
  pub route : Option SwapRoute
  pub no_liquidity : Bool
  pub is_loading : Bool
  pub slippage_bps : ℕ
  pub fee_on_transfer : Bool
  pub router : Option Text
  pub address : Option Text
  pub is_connected : Bool
  pub balance_in : Option ℕ
  pub allowance : Option ℕ
  pub is_approving : Bool
  pub is_pending : Bool
  pub receipt_loading : Bool
  pub deadline : Option ℕ

pub record SwapQuote : Type 0 where
  pub amount_in : ℕ
  pub amount_out : ℕ
  pub min_received : ℤ
  pub max_sold : ℕ
  pub impact_bps : ℕ

abbrev pub has_quote : Option SwapQuote → Bool
has_quote none = false
has_quote (some _) = true

abbrev pub is_out : SwapSide → Bool
is_out exact_in = false
is_out exact_out = true

module _ (i : CardInput) where
  abbrev pub side_of_form : SwapSide
  side_of_form = ((i.form).typed).side

  abbrev pub fot_conflict : Bool
  fot_conflict = i.fee_on_transfer && is_out side_of_form

  abbrev pub quote_of : SwapRoute → SwapQuote
  quote_of r = record {
    amount_in = r.amount_in;
    amount_out = r.amount_out;
    min_received =
        if is_out side_of_form
        then pos r.amount_out
        else minimum_received r.amount_out i.slippage_bps;
    max_sold = if is_out side_of_form then maximum_sold r.amount_in i.slippage_bps else r.amount_in;
    impact_bps = r.impact_bps;
  }

  unfoldable pub swap_quote : Option SwapQuote
  swap_quote = if fot_conflict then none else option_map quote_of i.route

  -- `useAllowance(tokenIn, quote?.maxSold)`.
  abbrev pub swap_allowance : AllowanceInput
  swap_allowance = record {
    token = some (i.form).token_in;
    amount = option_map (λ q. q.max_sold) swap_quote;
    router = i.router;
    allowance = i.allowance;
  }

  abbrev pub severity : ImpactSeverity
  severity = elim swap_quote [ none ↦ calm | some q ↦ impact_severity q.impact_bps ]

  abbrev pub is_severe : Bool
  is_severe = elim severity [ calm ↦ false | warn ↦ false | high ↦ false | severe ↦ true ]

  abbrev pub required : Option ℕ
  required =
      option_map (λ q. if ((i.form).token_in).is_native then q.max_sold else q.amount_in) swap_quote

  unfoldable pub insufficient_balance : Bool
  insufficient_balance = elim required [
    | none ↦ false
    | some need ↦ elim i.balance_in [ none ↦ false | some balance ↦ ltb balance need ]
  ]

  abbrev pub has_amount : Bool
  has_amount =
      not (is_empty ((i.form).typed).value) && elim i.amount [ none ↦ false | some a ↦ ltb 0 a ]

-- The texts of the button; a token's symbol is part of two of them.
pub data Label : Type 0 where
  get_started : Label
  select_different_tokens : Label
  enter_an_amount : Label
  exact_output_unavailable : Label
  finding_best_route : Label
  no_liquidity_for_this_pair : Label
  insufficient_liquidity : Label
  insufficient : Text → Label
  price_impact_too_high : Label
  approving : Label
  approve : Text → Label
  swapping : Label
  swap : Label

module _ (i : CardInput) where
  -- The rest of `label` once the two tokens differ.
  unfoldable pub label_ready : Label
  label_ready =
      if not (has_amount i)
      then enter_an_amount
      else if fot_conflict i
      then exact_output_unavailable
      else if i.is_loading
      then finding_best_route
      else if i.no_liquidity
      then no_liquidity_for_this_pair
      else elim (swap_quote i) [
        | none ↦ insufficient_liquidity
        | some q ↦
            if insufficient_balance i
            then insufficient ((i.form).token_in).symbol
            else if is_severe i
            then price_impact_too_high
            else if needs_approval (swap_allowance i)
            then if i.is_approving then approving else approve ((i.form).token_in).symbol
            else if i.is_pending || i.receipt_loading
            then swapping
            else swap
      ]

  -- `none` is the exception of `sameToken`.
  unfoldable pub label : Option Label
  label =
      if not i.is_connected
      then some get_started
      else same_token (i.form).token_in (i.form).token_out >>=? λ same.
          some (if same then select_different_tokens else label_ready)

  unfoldable pub blocked : Option Bool
  blocked =
      if not i.is_connected
      then some true
      else same_token (i.form).token_in (i.form).token_out >>=? λ same. some (
          same
          || not (has_quote (swap_quote i))
          || insufficient_balance i
          || is_severe i
          || i.is_approving
          || i.is_pending
          || i.receipt_loading)
