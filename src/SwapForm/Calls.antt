-- ===== src/SwapForm/Calls.antt =====
-- What a click on the button of apps/web/src/components/SwapCard.tsx sends.
use ark_swap.Prelude.{
  ℕ, Bool, true, false, not, is_known, ◌&&◌, ◌||◌, Option, none, some, List, [], Text, is_set,
  get_or, if◌then◌else◌, ◌>>=?◌,
}
use ark_swap.Prelude.Int.{ℤ}
use ark_swap.Allowance.{needs_approval, ApproveCall, approve}
use ark_swap.SwapForm.{
  CardInput, SwapQuote, is_out, side_of_form, swap_quote, swap_allowance, blocked,
}

-- The calls of the router, named by its functions; the flag selects the variant
-- `SupportingFeeOnTransferTokens`.
pub data SwapCall : Type 0 where
  swap_exact_eth_for_tokens :
      (fee_on_transfer : Bool) (amount_out_min : ℤ) (path : List Text) (to : Text) (deadline : ℕ)
      (value : ℕ)
      → SwapCall
  swap_exact_tokens_for_eth :
      (fee_on_transfer : Bool) (amount_in : ℕ) (amount_out_min : ℤ) (path : List Text) (to : Text)
      (deadline : ℕ)
      → SwapCall
  swap_exact_tokens_for_tokens :
      (fee_on_transfer : Bool) (amount_in : ℕ) (amount_out_min : ℤ) (path : List Text) (to : Text)
      (deadline : ℕ)
      → SwapCall
  swap_eth_for_exact_tokens :
      (amount_out : ℕ) (path : List Text) (to : Text) (deadline : ℕ) (value : ℕ) → SwapCall
  swap_tokens_for_exact_eth :
      (amount_out : ℕ) (amount_in_max : ℕ) (path : List Text) (to : Text) (deadline : ℕ) → SwapCall
  swap_tokens_for_exact_tokens :
      (amount_out : ℕ) (amount_in_max : ℕ) (path : List Text) (to : Text) (deadline : ℕ) → SwapCall

module _ (i : CardInput) where
  unfoldable pub call_exact_in : SwapQuote → List Text → Text → SwapCall
  call_exact_in q path to =
      if ((i.form).token_in).is_native
      then swap_exact_eth_for_tokens i.fee_on_transfer q.min_received path to (get_or i.deadline 0)
          q.amount_in
      else if ((i.form).token_out).is_native
      then swap_exact_tokens_for_eth i.fee_on_transfer q.amount_in q.min_received path to
          (get_or i.deadline 0)
      else swap_exact_tokens_for_tokens i.fee_on_transfer q.amount_in q.min_received path to
          (get_or i.deadline 0)

  unfoldable pub call_exact_out : SwapQuote → List Text → Text → SwapCall
  call_exact_out q path to =
      if ((i.form).token_in).is_native
      then swap_eth_for_exact_tokens q.amount_out path to (get_or i.deadline 0) q.max_sold
      else if ((i.form).token_out).is_native
      then swap_tokens_for_exact_eth q.amount_out q.max_sold path to (get_or i.deadline 0)
      else swap_tokens_for_exact_tokens q.amount_out q.max_sold path to (get_or i.deadline 0)

  -- The call that is sent to the router, `none` where `submit` returns before or throws.
  unfoldable pub submit : Option SwapCall
  submit =
      if not (is_set i.router) || not (is_set i.address)
      then none
      else swap_quote i >>=? λ q. i.route >>=? λ r.
          if not (is_known i.deadline)
          then none
          else some (
              if is_out (side_of_form i)
              then call_exact_out q r.path (get_or i.address [])
              else call_exact_in q r.path (get_or i.address []))

  -- Whether `submit` throws: it is past its guards, and the deadline is no whole number.
  abbrev pub submit_throws : Bool
  submit_throws =
      is_set i.router
      && is_set i.address
      && is_known (swap_quote i)
      && is_known i.route
      && not (is_known i.deadline)

pub data Click : Type 0 where
  idle : Click
  sends_approval : ApproveCall → Click
  sends_swap : SwapCall → Click
  throws : Click

abbrev pub approved : Option ApproveCall → Click
approved none = idle
approved (some c) = sends_approval c

abbrev pub swapped : Bool → Option SwapCall → Click
swapped thrown (some c) = sends_swap c
swapped true none = throws
swapped false none = idle

-- The button is disabled when it is blocked and needs no approval.
unfoldable pub click : CardInput → Option Click
click i = blocked i >>=? λ is_blocked. some (
    if is_blocked && not (needs_approval (swap_allowance i))
    then idle
    else if needs_approval (swap_allowance i)
    then approved (approve (swap_allowance i) true)
    else swapped (submit_throws i) (submit i))
