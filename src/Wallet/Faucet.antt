-- ===== src/Wallet/Faucet.antt =====
-- When the devnet faucet sends a mint (apps/web/src/components/FaucetModal.tsx).
use ark_swap.Prelude.{
  ℕ, ◌*◌, ◌^◌, ◌≡◌, refl, sym, ap, ◌∙◌, [], Bool, true, false, Option, none, some, Text, is_set,
  get_or, ◌==◌, ==_iff, Bool-cases, inl, inr,
}
use mathlib.Core.Bool.{false≢true}
use mathlib.Core.Option.{some-injective}
use ark_swap.Tokens.{Token}
use ark_swap.Wallet.{Account, MintCall, is_on, faucet_disabled, mint_call, click_mint}

is_on_inv : (id : ℕ) (chain : Option ℕ) → is_on id chain ≡ true → chain ≡ some id
is_on_inv id none e = absurd (false≢true e)
is_on_inv id (some chain) e = ap some ((==_iff chain id).0 e)

faucet_disabled_inv :
    (id devnet_id : ℕ) (a : Account)
    → faucet_disabled id devnet_id a ≡ false
    → (id ≡ devnet_id) × (a.is_connected ≡ true) × (a.wallet_chain ≡ some id)
unfolding faucet_disabled
faucet_disabled_inv id devnet_id a e = elim (Bool-cases (id == devnet_id)) [
  | inr f ↦ absurd (false≢true (sym (rw f at e)))
  | inl f ↦ elim (Bool-cases a.is_connected) [
    | inr g ↦ absurd (false≢true (sym (rw (f, g) at e)))
    | inl g ↦ elim (Bool-cases (is_on id a.wallet_chain)) [
      | inr h ↦ absurd (false≢true (sym (rw (f, g, h) at e)))
      | inl h ↦ ((==_iff id devnet_id).0 f, g, is_on_inv id a.wallet_chain h)
    ]
  ]
]

known : (t : Option Text) → is_set t ≡ true → t ≡ some (get_or t [])
known none e = absurd (false≢true e)
known (some t) e = refl

mint_call_inv :
    (a : Account) (token : Token) {c : MintCall}
    → mint_call a token ≡ some c
    → (token.address ≡ some c.token)
      × (a.address ≡ some c.recipient)
      × (c.amount ≡ 1_000 * 10 ^ token.decimals)
unfolding mint_call
mint_call_inv a token {c} e = elim (Bool-cases (is_set a.address)) [
  | inr f ↦ absurd (none≢some (rw (mint_call, f) at e))
  | inl f ↦ elim (Bool-cases (is_set token.address)) [
    | inr g ↦ absurd (none≢some (rw (mint_call, f, g) at e))
    | inl g ↦
        let built = some-injective _ _ (rw (mint_call, f, g) at e) in
        (
          known token.address g ∙ ap (λ x. some x.token) built,
          known a.address f ∙ ap (λ x. some x.recipient) built,
          ap (λ x. x.amount) (sym built),
        )
  ]
]
  where
    none≢some : ¬ (none ≡ some c)
    none≢some k = cc

-- A click mints only in an app that is pointed at the devnet, with a connected wallet on the app's chain and
-- no other mint under way, and then a thousand whole units of the token to the account.
pub click_mint-IsDevnet :
    (id devnet_id : ℕ) (a : Account) (is_pending : Bool) (token : Token) {c : MintCall}
    → click_mint id devnet_id a is_pending token ≡ some c
    → (id ≡ devnet_id)
      × (a.is_connected ≡ true)
      × (a.wallet_chain ≡ some id)
      × (is_pending ≡ false)
      × (token.address ≡ some c.token)
      × (a.address ≡ some c.recipient)
      × (c.amount ≡ 1_000 * 10 ^ token.decimals)
unfolding click_mint
click_mint-IsDevnet id devnet_id a is_pending token {c} e =
    elim (Bool-cases (faucet_disabled id devnet_id a)) [
      | inl f ↦ absurd (none≢some (rw f at e))
      | inr f ↦ elim (Bool-cases is_pending) [
        | inl g ↦ absurd (none≢some (rw (f, g) at e))
        | inr g ↦
            let (devnet, connected, on) = faucet_disabled_inv id devnet_id a f in
            let (contract, payee, amount) = mint_call_inv a token (rw (f, g) at e) in
            (devnet, connected, on, g, contract, payee, amount)
      ]
    ]
  where
    none≢some : ¬ (none ≡ some c)
    none≢some k = cc
