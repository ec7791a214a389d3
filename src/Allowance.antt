-- ===== src/Allowance.antt =====
-- apps/web/src/hooks/useAllowance.ts: the approval of the router. The allowance that the chain
-- returned is an argument; `none` is a read that has not returned.
use ark_swap.Prelude.{
  ℕ, ◌-◌, ◌^◌, Bool, false, not, ◌&&◌, ◌||◌, Option, none, some, [], Text, is_set, ltb,
  if◌then◌else◌, ◌>>=?◌, get_or,
}
use ark_swap.Tokens.{Token}

pub record AllowanceInput : Type 0 where
  pub token : Option Token
  pub amount : Option ℕ
  pub router : Option Text
  pub allowance : Option ℕ

abbrev pub max_uint256 : ℕ
max_uint256 = 2 ^ 256 - 1

unfoldable pub needs_erc20 : AllowanceInput → Bool
needs_erc20 i = elim i.token [
  | none ↦ false
  | some t ↦ not t.is_native && is_set t.address && is_set i.router
]

abbrev pub current : AllowanceInput → ℕ
current i = get_or i.allowance 0

unfoldable pub needs_approval : AllowanceInput → Bool
needs_approval i = elim i.amount [
  | none ↦ false
  | some amount ↦ needs_erc20 i && ltb 0 amount && ltb (current i) amount
]

-- The call `approve(spender, value)` of the token.
pub record ApproveCall : Type 0 where
  pub token : Text
  pub spender : Text
  pub value : ℕ

unfoldable pub approve : AllowanceInput → Bool → Option ApproveCall
approve i exact = i.token >>=? λ t.
    if not (is_set t.address) || not (is_set i.router)
    then none
    else i.amount >>=? λ amount. some (record {
      token = get_or t.address [];
      spender = get_or i.router [];
      value = if exact then amount else max_uint256;
    })
