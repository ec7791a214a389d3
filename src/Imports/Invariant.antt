-- ===== src/Imports/Invariant.antt =====
-- The imported tokens of apps/web/src/state/tokens.tsx never collide with a listed one.
use ark_swap.Prelude.{
  ◌≡◌, refl, sym, ◌∙◌, ap, Bool, true, false, not, Option, none, some, List, [], ◌∷◌, ◌++◌, Text,
  Result, ok, err, ◌>>=◌, >>=-eq-ok, ok_injective, filter_map, any, All, All-append, All-filter,
  filter-All, All-mono, arith, Option-cases, Bool-cases, inl, inr,
}
use ark_swap.PairAddress.{Viem, IsChecksum, AddressError, checked}
use ark_swap.Tokens.{Token, token_by_address}
use ark_swap.Tokens.Resolve.{token_by_address-lower}
use ark_swap.Imports.{
  Stored, RawEntry, same_address, remove_token, is_listed, valid, load, to_token, add_stored,
  import_token,
}

module _ (v : Viem) (is_address : Text → Bool) (listed : List Token) where
  -- The stored token's address is no listed one.
  abbrev pub IsForeign : Stored → Type 0
  IsForeign s = is_listed v is_address listed s ≡ false

  -- One thing that can happen: the page loads whatever is stored, or a token is imported or removed.
  pub data Step : List Stored → List Stored → Type 0 where
    loads :
        (raw : Option (List (Option RawEntry))) (prev : List Stored)
        → Step prev (load v is_address listed raw)
    imports :
        (s : Stored) (prev : List Stored) {t : Token} {more : List Stored}
        → import_token v is_address listed s prev ≡ ok (t, more)
        → Step prev more
    removes : (a : Text) (prev : List Stored) → Step prev (remove_token a prev)

  pub data Reach : List Stored → Type 0 where
    empty : Reach []
    next : {prev more : List Stored} → Reach prev → Step prev more → Reach more

  load-IsForeign :
      (raw : Option (List (Option RawEntry))) → All IsForeign (load v is_address listed raw)
  unfolding load
  load-IsForeign none = tt
  load-IsForeign (some raw) =
      All-mono IsForeign (λ s h. foreign s h) _
        (filter-All (λ s. not (is_listed v is_address listed s))
          (filter_map (valid v is_address listed) (filter_map (λ r. r) raw)))
    where
      foreign : (s : Stored) → not (is_listed v is_address listed s) ≡ true → IsForeign s
      foreign s h = ground arith

  checked_inv : (a : Text) {c : Text} → checked v a ≡ ok c → v.get_address a ≡ some c
  unfolding checked
  checked_inv a {c} e = elim (Option-cases (v.get_address a)) [
    | inl refused ↦ absurd (err≢ok (rw (refused, checked) at e))
    | inr (d, found) ↦ rw found (ap some (ok_injective d c (rw (found, checked) at e)))
  ]
    where
      err≢ok : {x : AddressError} → ¬ (◌≡◌ {A = Result AddressError Text} (err x) (ok c))
      err≢ok k = cc

  -- A checksummed address is listed when the address is.
  checked-listed :
      IsChecksum v
      → (a : Text) {c : Text} → checked v a ≡ ok c
      → token_by_address listed (some c) ≡ token_by_address listed (some a)
  checked-listed law a {c} e =
      sym (token_by_address-lower listed c)
      ∙ ap (λ x. token_by_address listed (some x)) (law.same a c (checked_inv a e))
      ∙ token_by_address-lower listed a

  add_stored-IsForeign :
      IsChecksum v
      → (s : Stored) (prev : List Stored) {more : List Stored}
      → token_by_address listed (some s.address) ≡ none
      → add_stored v is_address listed s prev ≡ ok more
      → All IsForeign prev
      → All IsForeign more
  unfolding add_stored
  add_stored-IsForeign law s prev {more} new e h =
      elim (Bool-cases (any (same_address s.address) prev)) [
        | inl known ↦ rw (ok_injective prev more (rw known at e)) at h
        | inr fresh ↦
            let (c, ready, done) =
              >>=-eq-ok (checked v s.address) (λ x. ok (prev ++ (record s { address = x } ∷ [])))
                (rw fresh at e) in
            let one : is_listed v is_address listed (record s { address = c }) ≡ false =
              rw (checked-listed law s.address ready, new) refl in
            rw (← ok_injective _ more done) (All-append IsForeign prev _ h (one, tt))
      ]

  import_token-IsForeign :
      IsChecksum v
      → (s : Stored) (prev : List Stored) {t : Token} {more : List Stored}
      → import_token v is_address listed s prev ≡ ok (t, more)
      → All IsForeign prev
      → All IsForeign more
  unfolding import_token
  import_token-IsForeign law s prev {t} {more} e h =
      elim (Option-cases (token_by_address listed (some s.address))) [
        | inr (u, known) ↦
            rw (ap (λ x. x.1) (ok_injective _ _ (rw (known, import_token) at e))) at h
        | inl new ↦
            let (updated, added, rest) =
              >>=-eq-ok (add_stored v is_address listed s prev)
                (λ x. to_token v is_address listed s >>= λ token. ok (token, x))
                (rw (new, import_token) at e) in
            let (token, made, done) =
              >>=-eq-ok (to_token v is_address listed s) (λ y. ok (y, updated)) rest in
            rw (ap (λ x. x.1) (ok_injective _ _ done)) at
              (add_stored-IsForeign law s prev new added h)
      ]

  -- Whatever was stored and whatever the user imports and removes, no imported token has the address of a
  -- listed one, up to case.
  pub Reach-IsForeign : IsChecksum v → {stored : List Stored} → Reach stored → All IsForeign stored
  unfolding remove_token
  Reach-IsForeign law empty = tt
  Reach-IsForeign law (next r (loads raw prev)) = load-IsForeign raw
  Reach-IsForeign law (next r (imports s prev e)) =
      import_token-IsForeign law s prev e (Reach-IsForeign law r)
  Reach-IsForeign law (next r (removes a prev)) =
      All-filter IsForeign (λ s. not (same_address a s)) prev (Reach-IsForeign law r)
