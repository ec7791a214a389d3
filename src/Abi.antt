-- ===== src/Abi.antt =====
-- The calls of contracts that apps/web/src/components/SwapCard.tsx and LiquidityCard.tsx hand to `writeContract`, and
-- the types that viem encodes them by. Whether viem takes a text for an address is the parameter
-- `is_address`.
pub mod Router
pub mod Pair
pub mod Factory
pub mod Erc20
pub mod Calls
pub mod Typed
pub mod Liquidity
use ark_swap.Prelude.{
  ℕ, ◌^◌, ◌<◌, ◌≡◌, Bool, true, false, Option, none, some, List, [], ◌∷◌, Text, text_eq, length,
  All, if◌then◌else◌, ◌==◌,
}
use ark_swap.Prelude.Int.{ℤ, pos, negsuc}

pub data AbiType : Type 0 where
  address_type : AbiType
  address_list : AbiType
  uint : ℕ → AbiType
  bool_type : AbiType
  bytes32_type : AbiType
  string_type : AbiType

pub data AbiValue : Type 0 where
  address : Text → AbiValue
  addresses : List Text → AbiValue
  integer : ℤ → AbiValue
  flag : Bool → AbiValue
  bytes : Text → AbiValue

pub record AbiFunction : Type 0 where
  pub name : Text
  pub inputs : List (Text × AbiType)
  pub payable : Bool

-- A function that is read; its inputs and outputs are known by their place.
pub record ViewFunction : Type 0 where
  pub name : Text
  pub inputs : List AbiType
  pub outputs : List AbiType
  pub is_view : Bool

-- `functionName`, `args` and `value` of `writeContract`.
pub record ContractCall : Type 0 where
  pub function_name : Text
  pub args : List AbiValue
  pub value : Option ℕ

-- The argument under a name of the function's inputs.
unfoldable pub arg : List (Text × AbiType) → List AbiValue → Text → Option AbiValue
arg ((n, t) ∷ inputs) (v ∷ values) name = if text_eq n name then some v else arg inputs values name
arg _ _ name = none

module _ (is_address : Text → Bool) where
  -- A value that has an encoding at the type; 32 bytes are 64 digits after the prefix.
  abbrev pub Fits : AbiType → AbiValue → Type 0
  Fits address_type (address a) = is_address a ≡ true
  Fits address_list (addresses l) = All (λ a. is_address a ≡ true) l
  Fits (uint bits) (integer (pos n)) = n < 2 ^ bits
  Fits bool_type (flag b) = Unit
  Fits bytes32_type (bytes t) = length t ≡ 66
  Fits _ _ = ⊥

  abbrev pub Match : List (Text × AbiType) → List AbiValue → Type 0
  Match [] [] = Unit
  Match ((n, t) ∷ inputs) (v ∷ values) = Fits t v × Match inputs values
  Match _ _ = ⊥
