-- ===== src/Wallet/Signing.antt =====
-- What the wallet is asked to sign for a removal (apps/web/src/hooks/useLpPermit.ts).
use ark_swap.Prelude.{
  ℕ, ◌≡◌, ◌⊎◌, refl, true, false, Option, none, some, List, [], ◌∷◌, ◌++◌, Text, codes, text_eq,
  is_set, is_known, get_or, option_map, ◌>>=?◌, if◌then◌else◌, Bool-cases, inl, inr,
}
use mathlib.Core.Bool.{false≢true, and-eq-true_iff}
use ark_swap.Permit.{
  PermitField, PermitMessage, PermitTypedData, permit_typed_data, Word, account, number, Digest,
  contract_digest,
}
use ark_swap.Wallet.{PermitInput, permit_ready, permit_request}

-- The members of a struct as EIP-712 writes them, after a first one.
abbrev more_members : List PermitField → Text
more_members [] = codes ")"
more_members (f ∷ fields) =
    codes "," ++ (f.type_name ++ (codes " " ++ (f.name ++ more_members fields)))

-- `encodeType`: the name of the struct and its members.
abbrev struct_text : Text → List PermitField → Text
struct_text name [] = name ++ codes "()"
struct_text name (f ∷ fields) =
    name ++ (codes "(" ++ (f.type_name ++ (codes " " ++ (f.name ++ more_members fields))))

-- `encodeData`: the message's value under the name of each member.
abbrev member_of : PermitMessage → Text → Option Word
member_of m n =
    if text_eq n (codes "owner")
    then some (account m.owner)
    else if text_eq n (codes "spender")
    then some (account m.spender)
    else if text_eq n (codes "value")
    then some (number m.value)
    else if text_eq n (codes "nonce")
    then some (number m.nonce)
    else if text_eq n (codes "deadline")
    then some (number m.deadline)
    else none

abbrev words_of : PermitMessage → List PermitField → Option (List Word)
words_of m [] = some []
words_of m (f ∷ fields) =
    member_of m f.name >>=? λ word. words_of m fields >>=? λ words. some (word ∷ words)

-- The digest that a wallet signs for typed data, by EIP-712.
abbrev pub wallet_digest : PermitTypedData → Option Digest
wallet_digest d =
    option_map
      (λ words. record {
        domain = d.domain;
        struct_type = struct_text d.primary_type d.types;
        words = words;
      })
      (words_of d.message d.types)

known_text : (t : Option Text) → is_set t ≡ true → t ≡ some (get_or t [])
known_text none e = absurd (false≢true e)
known_text (some t) e = refl

known_number : (n : Option ℕ) → is_known n ≡ true → n ≡ some (get_or n 0)
known_number none e = absurd (false≢true e)
known_number (some n) e = refl

-- Either something is missing and the wallet is asked for nothing, or the pool, its name and nonce, the
-- account and the router are known, and what the wallet signs is the digest that the permit of the pool's
-- contract checks: of the account as the owner, the router as the spender, the amount and the deadline that
-- were asked for, under the name and the nonce that were read.
pub permit_request-IsExact :
    (i : PermitInput) (value deadline : ℕ)
    → ((permit_ready i ≡ false) × (permit_request i value deadline ≡ none))
      ⊎ ((pair name owner router : Text) × (nonce : ℕ) × (i.pair ≡ some pair)
          × (i.name ≡ some name)
          × (i.address ≡ some owner)
          × (i.router ≡ some router)
          × (i.nonce ≡ some nonce)
          × ((d : PermitTypedData) × (permit_request i value deadline ≡ some d)
              × (wallet_digest d
                  ≡ some (contract_digest i.chain name pair owner router value nonce deadline))))
unfolding permit_request permit_ready permit_typed_data contract_digest text_eq
permit_request-IsExact i value deadline = elim (Bool-cases (permit_ready i)) [
  | inr f ↦ inl (f, rw (permit_request, f) refl)
  | inl f ↦
      let (with_nonce, name) = (and-eq-true_iff _ (is_set i.name)).0 f in
      let (with_router, nonce) = (and-eq-true_iff _ (is_known i.nonce)).0 with_nonce in
      let (with_address, router) = (and-eq-true_iff _ (is_set i.router)).0 with_router in
      let (pair, address) = (and-eq-true_iff _ (is_set i.address)).0 with_address in
      let signed = permit_typed_data (record {
        chain_id = i.chain;
        pair = get_or i.pair [];
        name = get_or i.name [];
        owner = get_or i.address [];
        spender = get_or i.router [];
        value = value;
        nonce = get_or i.nonce 0;
        deadline = deadline;
      }) in
      inr (
        get_or i.pair [],
        get_or i.name [],
        get_or i.address [],
        get_or i.router [],
        get_or i.nonce 0,
        known_text i.pair pair,
        known_text i.name name,
        known_text i.address address,
        known_text i.router router,
        known_number i.nonce nonce,
        (signed, rw (permit_request, f) refl, refl),
      )
]
