-- ===== src/PairAddress/Symmetric.antt =====
-- The pair of two tokens does not depend on their order or on the case of their addresses.
use ark_swap.Prelude.{
  ◌≡◌, sym, ◌∙◌, ◌↔◌, some, Text, text_eq_iff, text_eq_comm, text_lt_flip, lower, arith, err,
}
use ark_swap.PairAddress.{
  Viem, IsChecksum, checked, in_order, sort_tokens, compute_pair_address, identical_addresses,
}

module _ (v : Viem) where
  in_order_comm : (a b : Text) → in_order v a b ≡ in_order v b a
  in_order_comm a b =
      ground (arith, text_eq_comm (lower a) (lower b), text_lt_flip (lower a) (lower b))

  module _ (a b : Text) {c d : Text} (ea : v.get_address a ≡ some c)
      (eb : v.get_address b ≡ some d) where
    sort_tokens_valid : sort_tokens v a b ≡ in_order v c d
    unfolding sort_tokens checked
    sort_tokens_valid = ground arith

    sort_tokens_valid_flip : sort_tokens v b a ≡ in_order v d c
    unfolding sort_tokens checked
    sort_tokens_valid_flip = ground arith

    -- Two valid addresses are sorted alike in either order.
    pub sort_tokens_comm : sort_tokens v a b ≡ sort_tokens v b a
    sort_tokens_comm = sort_tokens_valid ∙ in_order_comm c d ∙ sym sort_tokens_valid_flip

    -- So the pair address is the same for both orders.
    pub compute_pair_address_comm :
        (factory : Text) → compute_pair_address v factory a b ≡ compute_pair_address v factory b a
    unfolding compute_pair_address
    compute_pair_address_comm factory = rw sort_tokens_comm

    -- Sorting fails exactly on addresses that agree up to case.
    pub sort_tokens_identical :
        IsChecksum v → (sort_tokens v a b ≡ err identical_addresses) ↔ (lower a ≡ lower b)
    sort_tokens_identical laws =
        rw (sort_tokens_valid, ← laws.same a c ea, ← laws.same b d eb)
          (ground (arith, text_eq_iff (lower c) (lower d)))
