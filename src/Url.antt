-- ===== src/Url.antt =====
-- apps/web/src/components/SwapUrlSync.tsx and PoolUrlSync.tsx, which keep the forms and the address bar in
-- step, and apps/web/src/state/pool.tsx, the selection of the liquidity form.
pub mod Params
pub mod RoundTrip
pub mod Distinct
use ark_swap.Prelude.{
  Bool, true, false, not, ◌&&◌, Option, none, some, List, [], ◌∷◌, Text, codes, text_eq, is_set,
  is_empty, get_or, ◌>>=?◌, if◌then◌else◌,
}
use ark_swap.Tokens.{Token, kash, resolve_token, same_token, token_param}
use ark_swap.Route.{SwapSide, exact_in, exact_out}
use ark_swap.SwapForm.{SwapState, Typed}
use ark_swap.Url.Params.{Query, get, set, delete}
use ark_swap.Format.{is_amount}

abbrev pub in_key : Text
in_key = codes "in"

abbrev pub out_key : Text
out_key = codes "out"

abbrev pub amount_key : Text
amount_key = codes "amount"

abbrev pub side_key : Text
side_key = codes "side"

abbrev pub side_text : SwapSide → Text
side_text exact_in = codes "in"
side_text exact_out = codes "out"

abbrev pub text_is : Option Text → Text → Bool
text_is none word = false
text_is (some s) word = text_eq s word

abbrev pub side_param : Query → SwapSide
side_param params = if text_is (get side_key params) (codes "out") then exact_out else exact_in

-- `if (tok && !sameToken(tok, other)) set(tok)`, where `set` gives the form after the call.
abbrev pub set_unless_same :
    Option Token → Token → (Token → SwapState) → SwapState → Option SwapState
set_unless_same none other change s = some s
set_unless_same (some t) other change s =
    same_token t other >>=? λ same. some (if same then s else change t)

abbrev pub apply_typed : Query → SwapState → SwapState
apply_typed params s = elim (get amount_key params) [
  | none ↦ s
  | some amount ↦
      if not (is_empty amount) && is_amount amount
      then record s { typed = record { side = side_param params; value = amount } }
      else s
]

-- The tokens of the first effect: both guards look at the tokens that were asked for.
unfoldable pub apply_tokens : Option Token → Option Token → SwapState → Option SwapState
apply_tokens in_tok out_tok s =
    let next_in = get_or in_tok s.token_in in
    let next_out = get_or out_tok s.token_out in
    set_unless_same in_tok next_out (λ t. record s { token_in = t }) s >>=? λ u.
    set_unless_same out_tok next_in (λ t. record u { token_out = t }) u

-- The first effect of `SwapUrlSync`; `none` is an exception of `sameToken`.
unfoldable pub apply_swap_url : (Text → Text) → List Token → Query → SwapState → Option SwapState
unfolding apply_tokens
apply_swap_url to_lower tokens params s =
    apply_tokens (resolve_token to_lower tokens (get in_key params))
      (resolve_token to_lower tokens (get out_key params)) s
    >>=? λ u. some (apply_typed params u)

-- The second effect of `SwapUrlSync`: the parameters of the address after it.
unfoldable pub write_swap_url : SwapState → Query → Query
write_swap_url s params =
    let tokens =
      set out_key (token_param s.token_out) (set in_key (token_param s.token_in) params) in
    if not (is_empty (s.typed).value)
    then set side_key (side_text (s.typed).side) (set amount_key (s.typed).value tokens)
    else delete side_key (delete amount_key tokens)

pub data PoolMode : Type 0 where
  add : PoolMode
  remove : PoolMode

pub record PoolSelection : Type 0 where
  pub token_a : Token
  pub token_b : Token
  pub mode : PoolMode

-- `usd` is `MUSDC`.
abbrev pub initial_selection : Option Token → PoolSelection
initial_selection usd = record { token_a = kash; token_b = get_or usd kash; mode = add }

unfoldable pub select : Token → Token → Option PoolMode → PoolSelection → PoolSelection
select a b mode s = record { token_a = a; token_b = b; mode = get_or mode s.mode }

abbrev pub mode_text : PoolMode → Text
mode_text add = codes "add"
mode_text remove = codes "remove"

abbrev pub a_key : Text
a_key = codes "a"

abbrev pub b_key : Text
b_key = codes "b"

abbrev pub mode_key : Text
mode_key = codes "mode"

abbrev pub mode_param : Option Text → Option PoolMode
mode_param m =
    if text_is m (codes "remove")
    then some remove
    else if text_is m (codes "add")
    then some add
    else none

abbrev pub change_mode : Option PoolMode → PoolSelection → PoolSelection
change_mode none s = s
change_mode (some m) s = record s { mode = m }

-- `if (a && b && !sameToken(a, b)) select(a, b, m); else if (m) setMode(m)`.
unfoldable pub apply_selection :
    Option Token → Option Token → Option PoolMode → PoolSelection → Option PoolSelection
unfolding select
apply_selection none b m s = some (change_mode m s)
apply_selection (some a) none m s = some (change_mode m s)
apply_selection (some a) (some b) m s =
    same_token a b >>=? λ same. some (if same then change_mode m s else select a b m s)

-- The first effect of `PoolUrlSync`.
unfoldable pub apply_pool_url :
    (Text → Text) → List Token → Query → PoolSelection → Option PoolSelection
unfolding apply_selection
apply_pool_url to_lower tokens params s =
    apply_selection (resolve_token to_lower tokens (get a_key params))
      (resolve_token to_lower tokens (get b_key params)) (mode_param (get mode_key params)) s

-- The second effect of `PoolUrlSync`.
unfoldable pub write_pool_url : PoolSelection → Query → Query
write_pool_url s params =
    set mode_key (mode_text s.mode)
      (set b_key (token_param s.token_b) (set a_key (token_param s.token_a) params))
