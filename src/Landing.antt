-- ===== src/Landing.antt =====
-- apps/web/src/components/landing/RecentTrades.tsx and TokenPrices.tsx: the trades and the prices of the
-- landing page. `formatUnits` of viem is the parameter `format_units`, `BigInt` of a text is `big_int`,
-- `none` where it throws.
pub mod Legs
use ark_swap.Prelude.{
  ℕ, ◌-◌, ◌/◌, Bool, true, false, not, ◌&&◌, Option, none, some, List, [], ◌∷◌, ◌++◌, map, filter,
  Text, codes, text_eq, ltb, is_empty, get_or, if◌then◌else◌, option_map, length, ◌==◌,
}
use ark_swap.Prelude.Int.{ℤ}
use ark_swap.Prelude.Decimal.{decimal}
use ark_swap.Tokens.{Token, token_by_address}
use ark_swap.Analytics.{AnalyticsResult, success, failure}
use ark_swap.Analytics.Types.{SwapRecord}
use ark_swap.Format.{format_amount, format_signed, shorten_address}
use ark_swap.Stats.{PoolSummary, pool_price}

pub record Leg : Type 0 where
  pub symbol : Text
  pub amount : Text

abbrev pub dash : Text
dash = codes "—"

module _ (format_units : ℕ → ℕ → Text) (big_int : Text → Option ℤ) (tokens : List Token) where
  -- An empty address is as good as none.
  abbrev pub leg_token : Option Text → Option Token
  leg_token none = none
  leg_token (some a) = if is_empty a then none else token_by_address tokens (some a)

  abbrev pub leg_label : Option Text → Option Text → Option Token → Text
  leg_label address (some symbol) token = symbol
  leg_label address none (some t) = t.symbol
  leg_label none none none = codes "unknown"
  leg_label (some a) none none = if is_empty a then codes "unknown" else shorten_address a

  abbrev pub leg_amount : Option Token → Option Text → Text
  leg_amount none amount = dash
  leg_amount (some t) none = dash
  leg_amount (some t) (some amount) = if is_empty amount then dash else elim (big_int amount) [
    | none ↦ dash
    | some n ↦ format_signed format_units n t.decimals 4
  ]

  unfoldable pub leg : Option Text → Option Text → Option Text → Leg
  leg address symbol amount =
      let token = leg_token address in
      record { symbol = leg_label address symbol token; amount = leg_amount token amount }

-- `age` of a timestamp in whole seconds; the clock's seconds are an argument.
unfoldable pub age : ℕ → ℕ → Text
age now timestamp =
    let seconds = now - timestamp in
    if ltb seconds 60
    then decimal seconds ++ codes "s ago"
    else if ltb seconds 3600
    then decimal (seconds / 60) ++ codes "m ago"
    else if ltb seconds 86_400
    then decimal (seconds / 3600) ++ codes "h ago"
    else decimal (seconds / 86_400) ++ codes "d ago"

pub record PriceRow : Type 0 where
  pub name : Text
  pub symbol : Text
  pub price : Option Text

-- `split(' (')[0]`.
unfoldable pub before_bracket : Text → Text
before_bracket [] = []
before_bracket (c ∷ []) = c ∷ []
before_bracket (c ∷ d ∷ s) =
    let rest = before_bracket (d ∷ s) in if c == b' ' && d == b'(' then [] else c ∷ rest

abbrev pub price_row : (ℕ → ℕ → Text) → Option Text → List PoolSummary → Token → Token → PriceRow
price_row format_units wkash pools quote token = record {
  name = before_bracket token.name;
  symbol = token.symbol;
  price =
      option_map (λ p. format_amount format_units p quote.decimals 4 ++ codes " " ++ quote.symbol)
        (pool_price wkash pools token quote);
}

-- The rows, none without a quote token.
unfoldable pub price_rows :
    (ℕ → ℕ → Text)
    → Option Text
    → List PoolSummary
    → List Token
    → Option Token
    → Option (List PriceRow)
price_rows format_units wkash pools tokens quote =
    option_map
      (λ q.
        map (price_row format_units wkash pools q)
          (filter (λ t. not (text_eq t.symbol q.symbol)) tokens))
      quote

pub record TradesView : Type 0 where
  pub warning : Bool
  pub loading : Bool
  pub trades : List SwapRecord

abbrev pub known_trades : Option (AnalyticsResult (List SwapRecord)) → Option (List SwapRecord)
known_trades none = none
known_trades (some (failure reason message)) = none
known_trades (some (success trades)) = some trades

abbrev pub trades_unavailable : Option (AnalyticsResult (List SwapRecord)) → Bool
trades_unavailable none = false
trades_unavailable (some (failure reason message)) = true
trades_unavailable (some (success trades)) = false

-- The section, none where it is left out.
unfoldable pub trades_view :
    Option (AnalyticsResult (List SwapRecord)) → (is_loading : Bool) → Option TradesView
trades_view data_ is_loading =
    let trades = known_trades data_ in
    if not is_loading
      && not (trades_unavailable data_)
      && elim trades [ none ↦ false | some l ↦ length l == 0 ]
    then none
    else some (record {
      warning = trades_unavailable data_;
      loading = is_loading && elim trades [ none ↦ true | some l ↦ false ];
      trades = get_or trades [];
    })
