-- ===== src/Reads/Coverage.antt =====
-- Every pair of every candidate path of apps/web/src/hooks/useSwapRoute.ts is read, and found again.
use ark_swap.Prelude.{
  ◌≡◌, refl, sym, ap, subst, ◌∙◌, true, false, Option, none, some, List, [], ◌∷◌, map, any, Text,
  text_eq, text_eq→eq, text_eq_refl, lower, All, All-mono, Result, ok, ok_injective, >>=-eq-ok,
  Bool-cases, Option-cases, inl, inr,
}
use mathlib.Core.Bool.{false≢true}
use ark_swap.PairAddress.{Viem, AddressError, compute_pair_address}
use ark_swap.Route.{Candidate}
use ark_swap.Route.Quoting.{PoolReserves, get_pool, read_pools}
use ark_swap.Route.Search.{path_keys, pair_keys, add_key}
use ark_swap.Reads.{Request, Answer}
use ark_swap.Reads.Decoded.{route_read_of}
use ark_swap.Reads.Hops.{own_pool, get_pool-own, read_pools-cons, Small}

abbrev pub Has : Text → List Text → Type 0
Has k keys = any (λ j. text_eq j k) keys ≡ true

module _ (answer : Request → Option Answer) where
  get_pool-found :
      (keys : List Text)
      → All (λ k. lower k ≡ k) keys
      → (k : Text) {pool : PoolReserves} → Has k keys
      → own_pool answer k ≡ some pool
      → get_pool k (read_pools keys (map (route_read_of answer) keys)) ≡ some pool
  unfolding read_pools get_pool
  get_pool-found [] small k h e = cc
  get_pool-found (p ∷ ps) (s, small) k {pool} h e =
      let results = map (route_read_of answer) ps in
      let split =
        ap (get_pool k)
          (read_pools-cons p ps (route_read_of answer p).0 (route_read_of answer p).1 results) in
      elim (Bool-cases (text_eq (lower p) k)) [
        | inl same ↦
            let is_k : k ≡ p = sym (text_eq→eq _ _ same) ∙ s in
            let here : own_pool answer p ≡ some pool =
              subst (λ x. own_pool answer x ≡ some pool) is_k e in
            split ∙ rw (here, same) refl
        | inr other ↦
            let here_not : text_eq p k ≡ false = subst (λ x. text_eq x k ≡ false) s other in
            let later : Has k ps = rw here_not at h in
            elim (Option-cases (own_pool answer p)) [
              | inl missing ↦ split ∙ rw missing (get_pool-found ps small k later e)
              | inr (q, here) ↦ split ∙ rw (here, other) (get_pool-found ps small k later e)
            ]
      ]

  -- A key that was asked for has the pool that its contract answers, and none where it answers none.
  pub get_pool-answered :
      (keys : List Text)
      → All (λ k. lower k ≡ k) keys
      → (k : Text) → Has k keys
      → get_pool k (read_pools keys (map (route_read_of answer) keys)) ≡ own_pool answer k
  get_pool-answered keys small k h = elim (Option-cases (own_pool answer k)) [
    | inr (q, e) ↦ get_pool-found keys small k h e ∙ sym e
    | inl e ↦ elim (Option-cases (get_pool k (read_pools keys (map (route_read_of answer) keys)))) [
      | inl missing ↦ missing ∙ sym e
      | inr (q, found) ↦ absurd (none≢some (sym e ∙ get_pool-own answer keys small k found))
    ]
  ]
    where
      none≢some : {q : PoolReserves} → ¬ (none ≡ some q)
      none≢some k = cc

module _ (v : Viem) (factory : Text) where
  add_key-Has : (k : Text) (keys : List Text) → Has k (add_key v factory k keys)
  add_key-Has k [] = rw (text_eq_refl k) refl
  add_key-Has k (j ∷ keys) = elim (Bool-cases (text_eq j k)) [
    | inl e ↦ rw (e, e) refl
    | inr e ↦ rw (e, e) (add_key-Has k keys)
  ]

  add_key_keeps : (n k : Text) (keys : List Text) → Has k keys → Has k (add_key v factory n keys)
  add_key_keeps n k [] h = absurd (false≢true h)
  add_key_keeps n k (j ∷ keys) h = elim (Bool-cases (text_eq j n)) [
    | inl e ↦ rw e h
    | inr e ↦ elim (Bool-cases (text_eq j k)) [
      | inl f ↦ rw (e, f) refl
      | inr f ↦ rw (e, f) (add_key_keeps n k keys (rw f at h))
    ]
  ]

  path_keys_keeps :
      (a : Text) (path keys : List Text) {out : List Text} (k : Text)
      → path_keys v factory a path keys ≡ ok out
      → Has k keys
      → Has k out
  unfolding path_keys
  path_keys_keeps a [] keys k e h = subst (Has k) (ok_injective _ _ e) h
  path_keys_keeps a (b ∷ path) keys k e h =
      let (addr, at, rest) = >>=-eq-ok (compute_pair_address v factory a b) _ e in
      path_keys_keeps b path _ k rest (add_key_keeps (lower addr) k keys h)

  -- What holds of the key of every hop of a path.
  abbrev pub Hops : (Text → Type 0) → Text → List Text → Type 0
  Hops P a [] = Unit
  Hops P a (b ∷ path) =
      ((pair : Text) → compute_pair_address v factory a b ≡ ok pair → P (lower pair))
      × Hops P b path

  Hops-mono :
      {P Q : Text → Type 0} (f : (k : Text) → P k → Q k) (a : Text) (path : List Text)
      → Hops P a path
      → Hops Q a path
  Hops-mono f a [] h = tt
  Hops-mono f a (b ∷ path) (h, hs) = (λ pair e. f (lower pair) (h pair e), Hops-mono f b path hs)

  abbrev pub AllHops : (Text → Type 0) → List Text → Type 0
  AllHops P [] = Unit
  AllHops P (a ∷ path) = Hops P a path

  AllHops-mono :
      {P Q : Text → Type 0} (f : (k : Text) → P k → Q k) (path : List Text)
      → AllHops P path
      → AllHops Q path
  AllHops-mono f [] h = tt
  AllHops-mono f (a ∷ path) h = Hops-mono f a path h

  path_keys-Hops :
      (a : Text) (path keys : List Text) {out : List Text}
      → path_keys v factory a path keys ≡ ok out
      → Hops (λ k. Has k out) a path
  unfolding path_keys
  path_keys-Hops a [] keys e = tt
  path_keys-Hops a (b ∷ path) keys {out} e =
      let (addr, at, rest) = >>=-eq-ok (compute_pair_address v factory a b) _ e in
      (
        λ pair found.
            subst (λ x. Has (lower x) out) (ok_injective _ _ (sym at ∙ found))
              (path_keys_keeps b path _ (lower addr) rest (add_key-Has (lower addr) keys)),
        path_keys-Hops b path _ rest,
      )

  abbrev FromFirst : List Text → List Text → List Text → Type 0
  FromFirst path keys out =
      (elim path as (λ x. Result AddressError (List Text)) [
        | [] ↦ ok keys
        | a ∷ rest ↦ path_keys v factory a rest keys
      ])
      ≡ ok out

  first_path_keeps :
      (path keys : List Text) {out : List Text} (k : Text)
      → FromFirst path keys out
      → Has k keys
      → Has k out
  first_path_keeps [] keys k e h = subst (Has k) (ok_injective _ _ e) h
  first_path_keeps (a ∷ path) keys k e h = path_keys_keeps a path keys k e h

  first_path-Hops :
      (path keys : List Text) {out : List Text}
      → FromFirst path keys out
      → AllHops (λ k. Has k out) path
  first_path-Hops [] keys e = tt
  first_path-Hops (a ∷ path) keys e = path_keys-Hops a path keys e

  pair_keys_keeps :
      (cs : List Candidate) (keys : List Text) {out : List Text} (k : Text)
      → pair_keys v factory cs keys ≡ ok out
      → Has k keys
      → Has k out
  unfolding pair_keys
  pair_keys_keeps [] keys k e h = subst (Has k) (ok_injective _ _ e) h
  pair_keys_keeps (c ∷ cs) keys k e h =
      let (more, at, rest) = >>=-eq-ok _ _ e in
      pair_keys_keeps cs more k rest (first_path_keeps c.path keys k at h)

  -- Every hop of every candidate has its pair's key among the keys.
  pub pair_keys-Hops :
      (cs : List Candidate) (keys : List Text) {out : List Text}
      → pair_keys v factory cs keys ≡ ok out
      → All (λ c. AllHops (λ k. Has k out) c.path) cs
  unfolding pair_keys
  pair_keys-Hops [] keys e = tt
  pair_keys-Hops (c ∷ cs) keys {out} e =
      let (more, at, rest) = >>=-eq-ok _ _ e in
      (
        AllHops-mono (λ k. pair_keys_keeps cs more k rest) c.path (first_path-Hops c.path keys at),
        pair_keys-Hops cs more rest,
      )

  -- With all keys asked for, the pool of every hop is what the contract of its pair answers.
  pub read_pools-Hops :
      (answer : Request → Option Answer) (cs : List Candidate) (keys : List Text)
      → Small v factory keys
      → All (λ c. AllHops (λ k. Has k keys) c.path) cs
      → All
          (λ c.
            AllHops
              (λ k.
                get_pool k (read_pools keys (map (route_read_of answer) keys)) ≡ own_pool answer k)
              c.path)
          cs
  read_pools-Hops answer cs keys small h =
      All-mono _ (λ c. AllHops-mono (λ k. get_pool-answered answer keys small k) c.path) cs h
