-- ===== src/PoolList/Resolved.antt =====
-- Which tokens of apps/web/src/hooks/usePools.ts count as stablecoins.
use ark_swap.Prelude.{
  ◌≡◌, refl, true, false, some, List, Text, is_set, Option-cases, Bool-cases, inl, inr,
}
use ark_swap.Tokens.{Token, token_by_address}
use ark_swap.PoolList.{TokenRead, resolve_address}

-- A token of a pool that counts as known is in the list under its address, and whether it is a stablecoin
-- and its decimals are as listed, whatever its contract says of itself.
pub resolve_address-listed :
    (tokens : List Token) (unknown : List Text) (metas : List TokenRead) (a : Text)
    → (resolve_address tokens unknown metas a).known ≡ true
    → (t : Token) × (token_by_address tokens (some a) ≡ some t)
      × ((resolve_address tokens unknown metas a).is_stable ≡ t.is_stable)
      × ((resolve_address tokens unknown metas a).decimals ≡ t.decimals)
unfolding resolve_address
resolve_address-listed tokens unknown metas a e =
    elim (Option-cases (token_by_address tokens (some a))) [
      | inl missing ↦ absurd (false≢true (rw (missing, resolve_address) at e))
      | inr (t, found) ↦ elim (Bool-cases (is_set t.address)) [
        | inl here ↦ (
          t,
          found,
          rw (found, here, resolve_address) refl,
          rw (found, here, resolve_address) refl,
        )
        | inr bare ↦ absurd (false≢true (rw (found, bare, resolve_address) at e))
      ]
    ]
  where
    false≢true : ¬ (false ≡ true)
    false≢true k = cc
