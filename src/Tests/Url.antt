-- ===== src/Tests/Url.antt =====
-- The addresses of the swap form, and picking its tokens.
use ark_swap.Prelude.{◌≡◌, refl, some, List, [], ◌∷◌, codes, text_eq, lower, trim}
use ark_swap.Tokens.{Token, kash, token_key, same_token, resolve_token, token_param, is_hex_address}
use ark_swap.Route.{exact_in, exact_out}
use ark_swap.SwapForm.{SwapState, flip}
use ark_swap.Url.{in_key, apply_swap_url, write_swap_url, apply_tokens}
use ark_swap.Url.Params.{Query, get, set, delete}
use ark_swap.Url.RoundTrip.{restored, apply_swap_url-write_swap_url}
use ark_swap.Url.Distinct.{DistinctForm, apply_swap_url-DistinctForm}
use ark_swap.Select.{is_disabled}
use ark_swap.Select.Picked.{here, next, picks_out, flips, Reach-DistinctForm}
use ark_swap.Tests.Amm.{usdc}
use ark_swap.Tests.Tokens.{usdc_token, imported_token}

abbrev listed : List Token
listed = kash ∷ usdc_token ∷ []

abbrev bought : SwapState
bought = record {
  token_in = kash;
  token_out = usdc_token;
  typed = record { side = exact_out; value = codes "1.5" };
}

abbrev sold : SwapState
sold = record {
  token_in = usdc_token;
  token_out = kash;
  typed = record { side = exact_in; value = [] };
}

apply_swap_url-write_swap_url_example :
    apply_swap_url lower listed (write_swap_url bought []) sold
    ≡ some (record bought { typed = restored bought.typed sold.typed })
unfolding resolve_token token_param trim is_hex_address text_eq lower same_token
apply_swap_url-write_swap_url_example =
    apply_swap_url-write_swap_url lower listed bought sold [] refl refl refl refl

-- An address that asks to sell what the form buys.
abbrev clash : Query
clash = (in_key, codes "mUSDC") ∷ []

apply_swap_url-DistinctForm_example :
    (u : SwapState) × (apply_swap_url lower listed clash bought ≡ some u) × DistinctForm u
unfolding token_key same_token text_eq lower
apply_swap_url-DistinctForm_example =
    apply_swap_url-DistinctForm lower listed clash bought
      ((codes "NATIVE", refl), ((lower usdc, refl), tt)) (codes "NATIVE", refl) (lower usdc, refl)
      refl

address_runs :
    (apply_swap_url lower listed clash bought ≡ some bought)
    × (write_swap_url sold ((codes "x", codes "1") ∷ clash)
        ≡ (codes "x", codes "1") ∷ (codes "in", codes "mUSDC") ∷ (codes "out", codes "KASH") ∷ [])
unfolding apply_swap_url apply_tokens get set delete write_swap_url resolve_token token_param trim
    is_hex_address text_eq lower same_token
address_runs = (refl, refl)

Reach-DistinctForm_example : DistinctForm (flip (record bought { token_out = imported_token }))
unfolding is_disabled same_token text_eq lower
Reach-DistinctForm_example = Reach-DistinctForm {start = bought} refl (
    next (next here (picks_out bought imported_token refl))
      (flips (record bought { token_out = imported_token })))
