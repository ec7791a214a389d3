-- ===== src/Wallet/Connect.antt =====
-- The wallets that the connect dialog offers (apps/web/src/components/ConnectButton.tsx).
use ark_swap.Prelude.{
  ◌≡◌, true, not, List, [], ◌∷◌, arith, ◌<◌, length, any, filter, Bool-cases, inl, inr,
}
use ark_swap.Wallet.{Connector, is_injected, is_generic, is_named_injected, offered}

rest :
    (c : Connector) (connectors : List Connector)
    → is_generic c ≡ true
    → any is_named_injected (c ∷ connectors) ≡ true
    → any is_named_injected connectors ≡ true
rest c connectors generic e = elim (Bool-cases (is_injected c.connector_type)) [
  | inl f ↦ rw (is_named_injected, f, generic) at e
  | inr f ↦ rw (is_named_injected, f) at e
]

kept_some :
    (connectors : List Connector)
    → any is_named_injected connectors ≡ true
    → 0 < length (filter (λ c. not (is_generic c)) connectors)
kept_some [] e = cc
kept_some (c ∷ connectors) e = elim (Bool-cases (is_generic c)) [
  | inl generic ↦ rw (filter, generic) (kept_some connectors (rest c connectors generic e))
  | inr named ↦ rw (filter, named) (omega arith)
]

-- Hiding the generic entry never leaves the dialog without a wallet when there is one.
pub offered-some :
    (connectors : List Connector) → 0 < length connectors → 0 < length (offered connectors)
unfolding offered
offered-some connectors h = elim (Bool-cases (any is_named_injected connectors)) [
  | inl e ↦ rw e (kept_some connectors e)
  | inr e ↦ rw e h
]
