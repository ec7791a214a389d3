-- ===== src/Liquidity/Shown.antt =====
-- What the liquidity card shows of the removal that its button sends.
use ark_swap.Prelude.{
  ℕ, ◌≡◌, refl, true, ◌&&◌, Option, some, [], Text, arith, get_or, ltb, Bool-cases, inl, inr,
}
use ark_swap.Prelude.Int.{ℤ}
use ark_swap.Liquidity.{LiquidityInput, LiquidityCall, Signature, remove_amount}
use ark_swap.Liquidity.Removal.{nothing, sends, has_pool, submit_remove}
use ark_swap.Liquidity.Sent.{Removes, submit_remove-Removes}
use ark_swap.Liquidity.View.{RemovalDetails, removal_details, removal_rows, minimum_row}

sends-has_pool :
    (i : LiquidityInput) (signature : Option Signature) {c : LiquidityCall}
    → submit_remove i signature ≡ sends c
    → has_pool i ≡ true
unfolding submit_remove
sends-has_pool i signature {c} e = elim (Bool-cases (has_pool i)) [
  | inl here ↦ here
  | inr missing ↦ absurd (nothing≢sends (ground arith))
]
  where
    nothing≢sends : ¬ (nothing ≡ sends c)
    nothing≢sends k = cc

-- When a click sends a removal, the card shows its details, and the minimums among them are those that the
-- call carries for the tokens A and B.
pub submit_remove-details :
    (format_units : ℕ → ℕ → Text) (i : LiquidityInput) (signature : Option Signature)
    {c : LiquidityCall}
    → submit_remove i signature ≡ sends c
    → (d : RemovalDetails) × (removal_details format_units i ≡ some d)
      × ((min_a min_b : ℤ) × (signed : Option Signature) × (d.minimum
            ≡ minimum_row format_units i min_a min_b)
          × Removes i c (remove_amount i) min_a min_b (get_or i.address []) signed)
unfolding removal_details
submit_remove-details format_units i signature e =
    let (positive, (signed, sent, permitted)) = submit_remove-Removes i signature e in
    let held = sends-has_pool i signature e in
    let shown : (has_pool i && ltb 0 (remove_amount i)) ≡ true = ground arith in
    (removal_rows format_units i, rw shown refl, (_, _, signed, refl, sent))
