-- ===== src/PairAddress.antt =====
-- sortTokens and computePairAddress of packages/sdk/amm.ts. viem and the generated init-code hash are
-- a parameter.
pub mod Symmetric
pub mod Order
use ark_swap.Prelude.{
  ℕ, ◌-◌, ◌≡◌, Bool, Option, none, some, List, [], ◌∷◌, ◌++◌, Text, codes, text_eq, text_lt, lower,
  if◌then◌else◌, Result, ok, err, ◌>>=◌, length, drop,
}

-- The library functions that the address derivation calls; `none` is a refused address.
pub record Viem : Type 0 where
  pub get_address : Text → Option Text
  pub keccak256 : Text → Text
  pub encode_packed : List Text → List Text → Text
  pub pair_init_code_hash : Text

-- What the code relies on: a checksummed address is the address up to case, and there is one
-- checksummed form.
pub record IsChecksum (v : Viem) : Type 0 where
  pub same : (a c : Text) → v.get_address a ≡ some c → lower c ≡ lower a
  pub unique :
      (a b c d : Text)
      → v.get_address a ≡ some c
      → v.get_address b ≡ some d
      → lower a ≡ lower b
      → c ≡ d

pub data AddressError : Type 0 where
  identical_addresses : AddressError
  invalid_address : Text → AddressError

-- `slice(-n)`.
abbrev pub slice_last : ℕ → Text → Text
slice_last n s = drop (length s - n) s

module _ (v : Viem) where
  unfoldable pub checked : Text → Result AddressError Text
  checked a = elim (v.get_address a) [ none ↦ err (invalid_address a) | some c ↦ ok c ]

  abbrev pub in_order : Text → Text → Result AddressError (Text × Text)
  in_order a b =
      if text_eq (lower a) (lower b)
      then err identical_addresses
      else if text_lt (lower a) (lower b)
      then ok (a, b)
      else ok (b, a)

  unfoldable pub sort_tokens : Text → Text → Result AddressError (Text × Text)
  sort_tokens token_a token_b = do a ← checked token_a; b ← checked token_b; in_order a b

  -- The part of `computePairAddress` after the tokens are sorted.
  unfoldable pub create2_address : Text → Text × Text → Result AddressError Text
  create2_address factory (token0, token1) =
      let salt =
        v.keccak256
          (v.encode_packed (codes "address" ∷ codes "address" ∷ []) (token0 ∷ token1 ∷ [])) in
      do
        deployer ← checked factory
        let hash = v.keccak256 (
            v.encode_packed
              (codes "bytes1" ∷ codes "address" ∷ codes "bytes32" ∷ codes "bytes32" ∷ [])
              (codes "0xff" ∷ deployer ∷ salt ∷ v.pair_init_code_hash ∷ []))
        checked (codes "0x" ++ slice_last 40 hash)

  unfoldable pub compute_pair_address : Text → Text → Text → Result AddressError Text
  compute_pair_address factory token_a token_b = do
    sorted ← sort_tokens token_a token_b
    create2_address factory sorted
