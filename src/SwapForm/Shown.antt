-- ===== src/SwapForm/Shown.antt =====
-- What the swap card shows of the swap that its button sends.
use ark_swap.Prelude.{
  ℕ, ◌≡◌, refl, ◌∙◌, ap, ◌<◌, some, Text, arith, if◌then◌else◌, Bool-cases, inl, inr, codes,
  option_map, ◌++◌, ◌==◌,
}
use ark_swap.Prelude.Int.{ℤ}
use ark_swap.Route.{SwapRoute}
use ark_swap.Format.{format_amount, format_signed}
use ark_swap.SwapForm.{CardInput, SwapQuote, quote_of, is_out, side_of_form}
use ark_swap.SwapForm.Calls.{SwapCall, click, sends_swap}
use ark_swap.SwapForm.Button.{click_inv, click-IsReady}
use ark_swap.SwapForm.Bounds.{spends, demands, submit-Trades, swap_quote_inv}
use ark_swap.SwapForm.View.{
  Details, BoundRow, minimum_received_row, maximum_sold_row, details, quote_details, details_of,
}

module _ (format_units : ℕ → ℕ → Text) (i : CardInput) where
  abbrev least : ℤ → BoundRow
  least m = minimum_received_row (
      format_signed format_units m ((i.form).token_out).decimals 6
      ++ codes " "
      ++ ((i.form).token_out).symbol)

  abbrev most : ℕ → BoundRow
  most n = maximum_sold_row (
      format_amount format_units n ((i.form).token_in).decimals 6
      ++ codes " "
      ++ ((i.form).token_in).symbol)

  -- The row for a bound that the call carries: the most that it can take where the output was typed, else
  -- the least that it must yield.
  abbrev pub row_of : SwapCall → BoundRow
  row_of c = if is_out (side_of_form i) then most (spends c) else least (demands c)

  quote_details_positive :
      (q : SwapQuote)
      → 0 < q.amount_in
      → quote_details format_units i q ≡ some (details_of format_units i q)
  unfolding quote_details
  quote_details_positive q h = elim (Bool-cases (q.amount_in == 0)) [
    | inl e ↦ absurd (ground arith)
    | inr e ↦ rw e refl
  ]

  -- The card of a click that sends a swap shows its details, and the bound among them is the one that the
  -- call carries, if the route takes anything.
  pub click-details :
      (r : SwapRoute) {c : SwapCall}
      → i.route ≡ some r
      → 0 < r.amount_in
      → click i ≡ some (sends_swap c)
      → (d : Details) × (details format_units i ≡ some (some d)) × (d.bound ≡ row_of c)
  unfolding details
  click-details r {c} er h e =
      let (free, ready, sent) = click_inv i e in
      let t = submit-Trades i r er sent in
      let (q, form) = click-IsReady i e in
      (
        details_of format_units i (quote_of i r),
        rw (details, form.quoted ∙ ap some (swap_quote_inv i r er form.quoted))
            (ap (option_map some) (quote_details_positive (quote_of i r) h)),
        rw (row_of, t.cost, t.yield) refl,
      )
