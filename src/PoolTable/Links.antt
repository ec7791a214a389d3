-- ===== src/PoolTable/Links.antt =====
-- Which token a link of the table of pools opens.
use ark_swap.Prelude.{
  ◌≡◌, refl, true, false, Option, none, some, List, [], ◌∷◌, ◌++◌, Text, trim, is_empty, is_set,
  All, find_first, get_or, if◌then◌else◌, ◌∙◌,
}
use ark_swap.Tokens.{Token, token_by_address, resolve_token, is_hex_address, symbol_is}
use ark_swap.Tokens.Resolve.{is_hex_address-trim}
use ark_swap.Valuation.{PoolToken}
use ark_swap.PoolList.{TokenRead, listed_as, read_as, read_of, resolve_address}
use ark_swap.PoolTable.{link_param, is_wkash_side}

link_param-other :
    (wkash : Option Text) (t : PoolToken)
    → is_wkash_side wkash t ≡ false
    → link_param wkash t ≡ (if t.known then t.symbol else t.address)
unfolding link_param
link_param-other wkash t e = rw e refl

module _ (to_lower : Text → Text) (wkash : Option Text) (tokens : List Token) (unknown : List Text)
    (metas : List TokenRead) (a : Text) where
  -- The pool's side at the address.
  abbrev side : PoolToken
  side = resolve_address tokens unknown metas a

  -- A link of a pool whose token is not listed names no token of the list, when the address is one and is
  -- not that of WKASH.
  pub resolve_token-link_param_unlisted :
      is_hex_address a ≡ true
      → is_wkash_side wkash side ≡ false
      → token_by_address tokens (some a) ≡ none
      → resolve_token to_lower tokens (some (link_param wkash side)) ≡ none
  unfolding link_param resolve_address resolve_token
  resolve_token-link_param_unlisted hex other unlisted =
      let (full, trimmed) = is_hex_address-trim a hex in
      let same : side ≡ read_as (read_of a unknown metas) a = rw (resolve_address, unlisted) refl in
      let param : link_param wkash side ≡ a = link_param-other wkash side other ∙ rw same refl in
      rw (param, trimmed, full, hex, unlisted) refl

  -- A link of a pool whose token is listed names the first token of the list with the same symbol up to
  -- case, which need not be the token itself. The pool's side is not WKASH, and the symbol is not empty, has
  -- no space around it and is no address.
  pub resolve_token-link_param :
      (before after : List Token) (u t : Token)
      → is_wkash_side wkash side ≡ false
      → tokens ≡ before ++ u ∷ after
      → token_by_address tokens (some a) ≡ some t
      → is_set t.address ≡ true
      → is_empty t.symbol ≡ false
      → trim t.symbol ≡ t.symbol
      → is_hex_address t.symbol ≡ false
      → All (λ x. symbol_is to_lower (to_lower t.symbol) x ≡ false) before
      → symbol_is to_lower (to_lower t.symbol) u ≡ true
      → resolve_token to_lower tokens (some (link_param wkash side)) ≡ some u
  unfolding link_param resolve_address resolve_token
  resolve_token-link_param before after u t other split listed full named trimmed symbol earlier
        here =
      let same : side ≡ listed_as t (get_or t.address []) =
        rw (resolve_address, listed, full) refl in
      let param : link_param wkash side ≡ t.symbol =
        link_param-other wkash side other ∙ rw same refl in
      rw (param, trimmed, named, symbol, split) (find_first _ before u after earlier here)
