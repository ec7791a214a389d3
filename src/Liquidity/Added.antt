-- ===== src/Liquidity/Added.antt =====
-- The call with which the liquidity form adds liquidity.
use ark_swap.Prelude.{
  ℕ, ◌<◌, ◌≡◌, refl, subst, Bool, true, false, not, ◌||◌, Option, none, some, [], Text, arith,
  is_set, is_known, get_or, leb, if◌then◌else◌, ◌>>=?◌, Option-cases, Bool-cases, inl, inr, ◌⊎◌,
}
use mathlib.Core.Option.{some-injective}
use ark_swap.Prelude.Int.{ℤ, pos}
use ark_swap.Tokens.{Token}
use ark_swap.Pools.{PoolState}
use ark_swap.Liquidity.{
  LiquidityInput, LiquidityCall, add_liquidity, add_liquidity_eth, remove_liquidity,
  remove_liquidity_eth, native_side, NativeSide, side_a, side_b, neither, with_slippage, submit_add,
  deposit_b, deposit_min, add_by,
}

-- A call that deposits `a` of the token A and `b` of the token B for the account and takes at least the
-- minimums of each: a native token as the value that is sent along, next to the other token's address,
-- and otherwise both under their addresses, in the order of the form.
abbrev pub Adds : Token → Token → LiquidityCall → ℕ → ℕ → ℤ → ℤ → Text → Type 0
Adds token_a token_b (add_liquidity_eth t amount m n to d v) a b min_a min_b who =
    (((token_a.is_native ≡ true)
        × (token_b.address ≡ some t)
        × (v ≡ a)
        × (amount ≡ b)
        × (n ≡ min_a)
        × (m ≡ min_b))
      ⊎ ((token_a.is_native ≡ false)
          × (token_b.is_native ≡ true)
          × (token_a.address ≡ some t)
          × (amount ≡ a)
          × (v ≡ b)
          × (m ≡ min_a)
          × (n ≡ min_b)))
    × (to ≡ who)
Adds token_a token_b (add_liquidity t u x y m n to d) a b min_a min_b who =
    ((token_a.is_native ≡ false)
      × (token_b.is_native ≡ false)
      × (token_a.address ≡ some t)
      × (token_b.address ≡ some u)
      × (x ≡ a)
      × (y ≡ b)
      × (m ≡ min_a)
      × (n ≡ min_b))
    × (to ≡ who)
Adds token_a token_b (remove_liquidity_eth f t l m n to d s) a b min_a min_b who = ⊥
Adds token_a token_b (remove_liquidity t u l m n to d s) a b min_a min_b who = ⊥

address_set : (o : Option Text) → not (is_set o) ≡ false → o ≡ some (get_or o [])
address_set none e = cc
address_set (some t) e = refl

-- What each side of the form tells of its tokens.
abbrev pub IsSide : NativeSide → Token → Token → Type 0
IsSide side_a token_a token_b = token_a.is_native ≡ true
IsSide side_b token_a token_b = (token_a.is_native ≡ false) × (token_b.is_native ≡ true)
IsSide neither token_a token_b = (token_a.is_native ≡ false) × (token_b.is_native ≡ false)

pub native_side-IsSide : (i : LiquidityInput) → IsSide (native_side i) i.token_a i.token_b
unfolding native_side
native_side-IsSide i = side (i.token_a).is_native (i.token_b).is_native refl refl
  where
    side :
        (x y : Bool)
        → (i.token_a).is_native ≡ x
        → (i.token_b).is_native ≡ y
        → IsSide (if x then side_a else if y then side_b else neither) i.token_a i.token_b
    side true y e f = e
    side false true e f = (e, f)
    side false false e f = (e, f)

module _ (i : LiquidityInput) (a b : ℕ) (who : Text) where
  add_by-Adds :
      (side : NativeSide) {c : LiquidityCall}
      → IsSide side i.token_a i.token_b
      → add_by i side a b who ≡ some c
      → Adds i.token_a i.token_b c a b (deposit_min i a) (deposit_min i b) who
  unfolding add_by
  add_by-Adds side_a {c} native e = elim (Bool-cases (not (is_set (i.token_b).address))) [
    | inl missing ↦ absurd (none≢some (rw missing at e))
    | inr here ↦
        subst (λ k. Adds i.token_a i.token_b k a b (deposit_min i a) (deposit_min i b) who)
          (some-injective _ _ (rw here at e))
          (inl (native, address_set _ here, refl, refl, refl, refl), refl)
  ]
    where
      none≢some : ¬ (none ≡ some c)
      none≢some k = cc
  add_by-Adds side_b {c} (native_a, native_b) e =
      elim (Bool-cases (not (is_set (i.token_a).address))) [
        | inl missing ↦ absurd (none≢some (rw missing at e))
        | inr here ↦
            subst (λ k. Adds i.token_a i.token_b k a b (deposit_min i a) (deposit_min i b) who)
              (some-injective _ _ (rw here at e))
              (inr (native_a, native_b, address_set _ here, refl, refl, refl, refl), refl)
      ]
    where
      none≢some : ¬ (none ≡ some c)
      none≢some k = cc
  add_by-Adds neither {c} (native_a, native_b) e =
      elim (Bool-cases (not (is_set (i.token_a).address) || not (is_set (i.token_b).address))) [
        | inl missing ↦ absurd (none≢some (rw missing at e))
        | inr here ↦
            let (set_a, set_b) = both _ _ here in
            subst (λ k. Adds i.token_a i.token_b k a b (deposit_min i a) (deposit_min i b) who)
              (some-injective _ _ (rw here at e))
              (
                (
                  native_a,
                  native_b,
                  address_set _ set_a,
                  address_set _ set_b,
                  refl,
                  refl,
                  refl,
                  refl,
                ),
                refl,
              )
      ]
    where
      none≢some : ¬ (none ≡ some c)
      none≢some k = cc

      both : (x y : Bool) → (x || y) ≡ false → (x ≡ false) × (y ≡ false)
      both x y k = ground arith

deposit_min_cases :
    (i : LiquidityInput) (a b : ℕ)
    → ((i.pool ≡ none) × (deposit_min i a ≡ pos 0) × (deposit_min i b ≡ pos 0))
      ⊎ ((p : PoolState) × (i.pool ≡ some p)
          × (deposit_min i a ≡ with_slippage i a)
          × (deposit_min i b ≡ with_slippage i b))
deposit_min_cases i a b = elim (Option-cases i.pool) [
  | inl e ↦ inl (e, rw e refl, rw e refl)
  | inr (p, e) ↦ inr (p, e, rw e refl, rw e refl)
]

submit_add_inv :
    (i : LiquidityInput) {c : LiquidityCall}
    → submit_add i ≡ some c
    → (a : ℕ) × (i.amount_a ≡ some a)
      × (0 < a)
      × (add_by i (native_side i) a (deposit_b i) (get_or i.address []) ≡ some c)
unfolding submit_add
submit_add_inv i {c} e = elim (Bool-cases (not (is_set i.router) || not (is_set i.address))) [
  | inl missing ↦ absurd (none≢some (rw missing at e))
  | inr here ↦ typed i.amount_a refl (rw here at e)
]
  where
    none≢some : ¬ (none ≡ some c)
    none≢some k = cc

    typed :
        (o : Option ℕ)
        → i.amount_a ≡ o
        → (o >>=? λ x.
            if leb x 0 || not (is_known i.deadline)
            then none
            else add_by i (native_side i) x (deposit_b i) (get_or i.address []))
          ≡ some c
        → (a : ℕ) × (i.amount_a ≡ some a)
          × (0 < a)
          × (add_by i (native_side i) a (deposit_b i) (get_or i.address []) ≡ some c)
    typed none known h = absurd (none≢some h)
    typed (some a) known h = elim (Bool-cases (leb a 0 || not (is_known i.deadline))) [
      | inl zero ↦ absurd (none≢some (rw zero at h))
      | inr more ↦ (a, known, ground arith, rw more at h)
    ]

-- A deposit that is sent is of the typed amount of the token A, which is not zero, and the matched one of the
-- token B, for the account, each token under its address or as the value if it is native. With a known pool
-- the minimums are the tolerance below the two amounts; with no known pool they are zero.
pub submit_add-Adds :
    (i : LiquidityInput) {c : LiquidityCall}
    → submit_add i ≡ some c
    → (a : ℕ) × (i.amount_a ≡ some a)
      × (0 < a)
      × ((min_a min_b : ℤ) × Adds i.token_a i.token_b c a
            (deposit_b i)
            min_a
            min_b
            (get_or i.address [])
          × (((i.pool ≡ none) × (min_a ≡ pos 0) × (min_b ≡ pos 0))
              ⊎ ((p : PoolState) × (i.pool ≡ some p)
                  × (min_a ≡ with_slippage i a)
                  × (min_b ≡ with_slippage i (deposit_b i)))))
submit_add-Adds i {c} e =
    let (a, known, more, sent) = submit_add_inv i e in
    (
      a,
      known,
      more,
      (
        deposit_min i a,
        deposit_min i (deposit_b i),
        add_by-Adds i a (deposit_b i) (get_or i.address []) (native_side i) (native_side-IsSide i)
            sent,
        deposit_min_cases i a (deposit_b i),
      ),
    )
