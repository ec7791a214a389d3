-- ===== src/SwapForm/View.antt =====
-- What apps/web/src/components/SwapCard.tsx renders around its button: the two amounts, the details of
-- the quote and the alerts. `formatUnits` of viem is the parameter `format_units`.
use ark_swap.Prelude.{
  ℕ, ◌-◌, ◌*◌, ◌/◌, ◌^◌, Bool, true, false, not, ◌&&◌, ◌||◌, Option, none, some, List, [], ◌∷◌,
  ◌++◌, Text, codes, ltb, ◌==◌, length, take, if◌then◌else◌, option_map,
}
use ark_swap.Prelude.Decimal.{decimal, is_digit}
use ark_swap.Tokens.{Token}
use ark_swap.Amm.{ImpactSeverity, calm, warn, high, severe}
use ark_swap.Allowance.{needs_approval}
use ark_swap.Format.{format_amount, format_signed, format_bps}
use ark_swap.SwapForm.{
  CardInput, SwapQuote, side_of_form, is_out, swap_quote, has_quote, has_amount, fot_conflict,
  severity, is_severe, swap_allowance,
}

-- The field of the side that was not typed in shows the quote.
module _ (format_units : ℕ → ℕ → Text) (i : CardInput) where
  unfoldable pub sell_value : Text
  sell_value =
      if is_out (side_of_form i)
      then elim (swap_quote i) [
        | none ↦ []
        | some q ↦ format_amount format_units q.amount_in ((i.form).token_in).decimals 6
      ]
      else ((i.form).typed).value

  unfoldable pub buy_value : Text
  buy_value = if is_out (side_of_form i) then ((i.form).typed).value else elim (swap_quote i) [
    | none ↦ []
    | some q ↦ format_amount format_units q.amount_out ((i.form).token_out).decimals 6
  ]

abbrev pub is_deriving : CardInput → Bool
is_deriving i = has_amount i && i.is_loading && not (has_quote (swap_quote i))

abbrev pub sell_loading : CardInput → Bool
sell_loading i = is_out (side_of_form i) && is_deriving i

abbrev pub buy_loading : CardInput → Bool
buy_loading i = not (is_out (side_of_form i)) && is_deriving i

pub data BoundRow : Type 0 where
  minimum_received_row : Text → BoundRow
  maximum_sold_row : Text → BoundRow

pub data ImpactColor : Type 0 where
  plain_color : ImpactColor
  warn_color : ImpactColor
  danger_color : ImpactColor

abbrev pub impact_color : ImpactSeverity → ImpactColor
impact_color calm = plain_color
impact_color warn = warn_color
impact_color high = danger_color
impact_color severe = danger_color

pub record Details : Type 0 where
  pub rate : Text
  pub impact : Text
  pub color : ImpactColor
  pub bound : BoundRow
  pub fee : Text
  pub route_text : Text

abbrev pub arrow : Text
arrow = codes " → "

-- `join(' → ')`.
unfoldable pub join_arrows : List Text → Text
join_arrows [] = []
join_arrows (s ∷ []) = s
join_arrows (s ∷ t ∷ ss) = s ++ arrow ++ join_arrows (t ∷ ss)

abbrev pub hops : List Text → Text
hops path =
    if ltb 2 (length path)
    then codes " ("
      ++ decimal (length path - 2)
      ++ codes " hop"
      ++ (if ltb 3 (length path) then codes "s)" else codes ")")
    else []

abbrev pub route_row : CardInput → Text
route_row i = elim i.route [
  | none ↦ ((i.form).token_in).symbol ++ arrow ++ ((i.form).token_out).symbol
  | some r ↦ join_arrows r.symbols ++ hops r.path
]

module _ (format_units : ℕ → ℕ → Text) (i : CardInput) where
  abbrev pub with_symbol : Text → Token → Text
  with_symbol text token = text ++ codes " " ++ token.symbol

  abbrev pub bound_row : SwapQuote → BoundRow
  bound_row q =
      if is_out (side_of_form i)
      then maximum_sold_row (
          with_symbol (format_amount format_units q.max_sold ((i.form).token_in).decimals 6)
            (i.form).token_in)
      else minimum_received_row (
          with_symbol (format_signed format_units q.min_received ((i.form).token_out).decimals 6)
            (i.form).token_out)

  abbrev pub rate_row : SwapQuote → Text
  rate_row q =
      codes "1 "
      ++ ((i.form).token_in).symbol
      ++ codes " = "
      ++ with_symbol
          (format_amount format_units
            ((q.amount_out * 10 ^ ((i.form).token_in).decimals) / q.amount_in)
            ((i.form).token_out).decimals 6)
          (i.form).token_out

  abbrev pub details_of : SwapQuote → Details
  details_of q = record {
    rate = rate_row q;
    impact = format_bps q.impact_bps;
    color = impact_color (severity i);
    bound = bound_row q;
    fee = format_bps 30;
    route_text = route_row i;
  }

  -- `none` is the exception of a division by zero.
  unfoldable pub quote_details : SwapQuote → Option Details
  quote_details q = if q.amount_in == 0 then none else some (details_of q)

  -- The details, or none without a quote.
  unfoldable pub details : Option (Option Details)
  details = elim (swap_quote i) [ none ↦ some none | some q ↦ option_map some (quote_details q) ]

-- `/\w/`.
abbrev pub is_word : ℕ → Bool
is_word c = is_digit c || (ltb 64 c && ltb c 91) || (ltb 96 c && ltb c 123) || c == b'_'

abbrev pub starts_word : Text → Bool
starts_word [] = false
starts_word (c ∷ s) = is_word c

-- `/(?:^|\W)K(?:$|\W)/` in a text that follows a word character or does not.
unfoldable pub has_lone_k : Bool → Text → Bool
has_lone_k after_word [] = false
has_lone_k after_word (c ∷ s) =
    let rest = has_lone_k (is_word c) s in
    (c == b'K' && not after_word && not (starts_word s)) || rest

-- `kRevert` for the message of an error.
unfoldable pub is_k_revert : CardInput → Text → Bool
is_k_revert i message = has_lone_k false (take 200 message) && not i.fee_on_transfer

pub record Alerts : Type 0 where
  pub exact_output_conflict : Bool
  pub high_impact : Bool
  pub severe_impact : Bool
  pub failure : Option (Text × Bool)

abbrev pub is_high : ImpactSeverity → Bool
is_high calm = false
is_high warn = false
is_high high = true
is_high severe = false

-- The message of a failed write, and whether the setting for taxed transfers is pointed out.
unfoldable pub alerts : CardInput → Option Text → Alerts
alerts i error = record {
  exact_output_conflict = fot_conflict i && has_amount i;
  high_impact = is_high (severity i);
  severe_impact = is_severe i;
  failure = option_map (λ message. (take 200 message, is_k_revert i message)) error;
}

pub data ButtonClass : Type 0 where
  danger_button : ButtonClass
  primary_button : ButtonClass
  plain_button : ButtonClass

-- The class of the button and whether it is disabled, of what `blocked` gives.
abbrev pub button_class : CardInput → Bool → ButtonClass
button_class i is_blocked =
    if is_severe i
    then danger_button
    else if needs_approval (swap_allowance i) || not is_blocked
    then primary_button
    else plain_button

abbrev pub button_disabled : CardInput → Bool → Bool
button_disabled i is_blocked = is_blocked && not (needs_approval (swap_allowance i))
