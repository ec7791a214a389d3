-- ===== src/Permit.antt =====
-- apps/web/src/lib/permit.ts: the permit of a pool's token. What viem's `parseSignature` returned is an
-- argument.
use ark_swap.Prelude.{
  ℕ, ◌≡◌, refl, ◌⊎◌, inl, inr, Option, none, some, List, [], ◌∷◌, Text, codes, ◌==◌, if◌then◌else◌,
  Bool-cases,
}
use ark_swap.Liquidity.{Signature}

pub record PermitField : Type 0 where
  pub name : Text
  pub type_name : Text

-- `PERMIT_TYPES.Permit`.
abbrev pub permit_types : List PermitField
permit_types =
    record { name = codes "owner"; type_name = codes "address" }
    ∷ record { name = codes "spender"; type_name = codes "address" }
    ∷ record { name = codes "value"; type_name = codes "uint256" }
    ∷ record { name = codes "nonce"; type_name = codes "uint256" }
    ∷ record { name = codes "deadline"; type_name = codes "uint256" }
    ∷ []

pub record PermitArgs : Type 0 where
  pub chain_id : ℕ
  pub pair : Text
  pub name : Text
  pub owner : Text
  pub spender : Text
  pub value : ℕ
  pub nonce : ℕ
  pub deadline : ℕ

pub record PermitDomain : Type 0 where
  pub name : Text
  pub version : Text
  pub chain_id : ℕ
  pub verifying_contract : Text

pub record PermitMessage : Type 0 where
  pub owner : Text
  pub spender : Text
  pub value : ℕ
  pub nonce : ℕ
  pub deadline : ℕ

pub record PermitTypedData : Type 0 where
  pub domain : PermitDomain
  pub types : List PermitField
  pub primary_type : Text
  pub message : PermitMessage

unfoldable pub permit_typed_data : PermitArgs → PermitTypedData
permit_typed_data a = record {
  domain = record {
    name = a.name;
    version = codes "1";
    chain_id = a.chain_id;
    verifying_contract = a.pair;
  };
  types = permit_types;
  primary_type = codes "Permit";
  message = record {
    owner = a.owner;
    spender = a.spender;
    value = a.value;
    nonce = a.nonce;
    deadline = a.deadline;
  };
}

-- What is hashed: the domain, the type of the struct as text, and its words.
pub data Word : Type 0 where
  account : Text → Word
  number : ℕ → Word

pub record Digest : Type 0 where
  pub domain : PermitDomain
  pub struct_type : Text
  pub words : List Word

-- `permit` of ArkSwapERC20.sol: the digest that the signature must be of, at the pair `self`, whose domain
-- separator binds its name, the version 1, the chain and its address.
unfoldable pub contract_digest :
    (chain : ℕ) (name self owner spender : Text) (value nonce deadline : ℕ) → Digest
contract_digest chain name self owner spender value nonce deadline = record {
  domain = record { name = name; version = codes "1"; chain_id = chain; verifying_contract = self };
  struct_type =
      codes "Permit(address owner,address spender,uint256 value,uint256 nonce,uint256 deadline)";
  words = account owner ∷ account spender ∷ number value ∷ number nonce ∷ number deadline ∷ [];
}

pub record ParsedSignature : Type 0 where
  pub v : Option ℕ
  pub y_parity : ℕ
  pub r : Text
  pub s : Text

unfoldable pub split_signature : ParsedSignature → Signature
split_signature sig = record {
  v = elim sig.v [ some v ↦ v | none ↦ if sig.y_parity == 1 then 28 else 27 ];
  r = sig.r;
  s = sig.s;
}

-- Without a `v` of the wallet's own the split signature has one of the two that `ecrecover` takes.
pub split_signature_lem :
    (sig : ParsedSignature)
    → sig.v ≡ none
    → ((split_signature sig).v ≡ 27) ⊎ ((split_signature sig).v ≡ 28)
unfolding split_signature
split_signature_lem sig e = elim (Bool-cases (sig.y_parity == 1)) [
  | inl one ↦ inr (rw (e, one) refl)
  | inr zero ↦ inl (rw (e, zero) refl)
]
