-- ===== src/Router/Outputs.antt =====
-- The loop of `getAmountsOut` in ArkSwapLibrary.sol ends, and computes the outputs hop by hop.
use mathlib.Core.List.{append_assoc}
use mathlib.Core.Path.{fun_ext}
use ark_swap.Prelude.{
  ℕ, zero, suc, ◌+◌, ◌-◌, ◌≡◌, ◌≢◌, Option-cases, refl, sym, ap, ◌∙◌, ◌<◌, true, false, List, [],
  ◌∷◌, ◌++◌, Text, arith, Result, ok, err, ◌>>=◌, length, get_elem?, get_elem?-append, set-append,
  length-append, inl, inr, Result-cases, ltb, leb,
}
use ark_swap.Amm.Contract.{Revert, contract_get_amount_out}
use ark_swap.Router.{
  RouterError, Reserves, out_of_fuel, no_pair, lift_library, zeros, pair_out, out_step, out_loop,
  get_amounts_out,
}

-- The outputs after `amount` of the token `a` along the path.
unfoldable pub outputs : Reserves → ℕ → Text → List Text → Result RouterError (List ℕ)
outputs reserves amount a [] = ok []
outputs reserves amount a (b ∷ path) = do
  next ← pair_out reserves amount a b
  more ← outputs reserves next b path
  ok (next ∷ more)

pub get_at :
    {A : Type 0} (xs ys : List A) (i k : ℕ)
    → i ≡ length xs + k
    → get_elem? (xs ++ ys) i ≡ get_elem? ys k
get_at xs ys i k e = rw e (get_elem?-append xs ys k)

-- A computation that was not stopped by its fuel, and that returned a list of this length if it did.
abbrev pub Ends : ℕ → Result RouterError (List ℕ) → Type 0
Ends n (ok l) = length l ≡ n
Ends n (err e) = e ≢ out_of_fuel

Ends-cons :
    (n x : ℕ) (r : Result RouterError (List ℕ)) → Ends n r → Ends (suc n) (r >>= λ l. ok (x ∷ l))
Ends-cons n x (ok l) e = ap suc e
Ends-cons n x (err f) e = e

missing_err :
    {e : RouterError} → ◌≡◌ {A = Result RouterError ℕ} (err no_pair) (err e) → e ≢ out_of_fuel
missing_err h k = cc

lift_err : (r : Result Revert ℕ) {e : RouterError} → lift_library r ≡ err e → e ≢ out_of_fuel
lift_err (ok a) h k = cc
lift_err (err x) h k = cc

module _ (reserves : Reserves) where
  out_step_lem :
      (done : List ℕ) (passed : List Text) (amount z : ℕ) (rest : List ℕ) (a b : Text)
      (path : List Text)
      → length done ≡ length passed
      → out_step reserves (passed ++ a ∷ b ∷ path) (length passed) (done ++ amount ∷ z ∷ rest)
        ≡ (pair_out reserves amount a b >>= λ next. ok (done ++ amount ∷ next ∷ rest))
  unfolding out_step
  out_step_lem done passed amount z rest a b path e =
      rw
        (
          get_at passed (a ∷ b ∷ path) (length passed) 0 (omega arith),
          get_at passed (a ∷ b ∷ path) (length passed + 1) 1 refl,
          get_at done (amount ∷ z ∷ rest) (length passed) 0 (omega arith),
        )
        (ap (λ f. pair_out reserves amount a b >>= λ next. ok (f next))
          (fun_ext λ next. rw (sym e) (set-append done (amount ∷ z ∷ rest) 1 next)))

  goes_on :
      (passed : List Text) (a b : Text) (path : List Text)
      → ltb (length passed) (length (passed ++ a ∷ b ∷ path) - 1) ≡ true
  goes_on passed a b path = ground (arith, length-append passed (a ∷ b ∷ path))

  ends :
      (passed : List Text) (a : Text) → ltb (length passed) (length (passed ++ a ∷ []) - 1) ≡ false
  ends passed a = ground (arith, length-append passed (a ∷ []))

  length-snoc : {A : Type 0} (l : List A) (x : A) → length l + 1 ≡ length (l ++ x ∷ [])
  length-snoc l x = omega (arith, length-append l (x ∷ []))

  -- Within its bound the loop never runs out of fuel, and it fills in the outputs.
  out_loop_lem :
      (fuel i : ℕ) (done amounts : List ℕ) (passed whole : List Text) (amount : ℕ) (a : Text)
      (path : List Text)
      → i ≡ length passed
      → length done ≡ length passed
      → whole ≡ passed ++ a ∷ path
      → amounts ≡ done ++ amount ∷ zeros path
      → length path < fuel
      → out_loop reserves fuel whole i amounts
        ≡ (outputs reserves amount a path >>= λ more. ok (done ++ amount ∷ more))
  unfolding out_loop outputs
  out_loop_lem zero i done amounts passed whole amount a path ei e ew ea h = elim h [ ]
  out_loop_lem (suc fuel) i done amounts passed whole amount a [] ei e ew ea h =
      rw (ei, ew, ea, ends passed a) refl
  out_loop_lem (suc fuel) i done amounts passed whole amount a (b ∷ path) ei e ew ea h =
      rw
        (
          ei,
          ew,
          ea,
          goes_on passed a b path,
          out_step_lem done passed amount 0 (zeros path) a b path e,
        )
        (elim (Result-cases (pair_out reserves amount a b)) [
          | inl (x, failed) ↦ rw failed refl
          | inr (next, paid) ↦ rw paid (
              out_loop_lem fuel (length passed + 1) (done ++ amount ∷ [])
                (done ++ amount ∷ next ∷ zeros path) (passed ++ a ∷ []) (passed ++ a ∷ b ∷ path)
                next b path (length-snoc passed a)
                (sym (length-snoc done amount) ∙ ap (λ n. n + 1) e ∙ length-snoc passed a)
                (sym (append_assoc passed (a ∷ []) (b ∷ path)))
                (sym (append_assoc done (amount ∷ []) (next ∷ zeros path))) (omega arith)
              ∙ joined next (outputs reserves next b path))
        ])
    where
      joined :
          (next : ℕ) (o : Result RouterError (List ℕ))
          → (o >>= λ more. ok ((done ++ amount ∷ []) ++ next ∷ more))
            ≡ ((o >>= λ more. ok (next ∷ more)) >>= λ more. ok (done ++ amount ∷ more))
      joined next (ok more) = rw append_assoc refl
      joined next (err x) = refl

  -- `getAmountsOut` returns the amount and the outputs, hop by hop.
  pub get_amounts_out_lem :
      (amount : ℕ) (a b : Text) (path : List Text)
      → get_amounts_out reserves amount (a ∷ b ∷ path)
        ≡ (outputs reserves amount a (b ∷ path) >>= λ more. ok (amount ∷ more))
  unfolding get_amounts_out
  get_amounts_out_lem amount a b path = rw (two_or_more a b path) (
      out_loop_lem (length (a ∷ b ∷ path)) 0 [] (amount ∷ zeros (b ∷ path)) [] (a ∷ b ∷ path) amount
        a (b ∷ path) refl refl refl refl (omega arith))
    where
      two_or_more : (a b : Text) (path : List Text) → leb 2 (length (a ∷ b ∷ path)) ≡ true
      two_or_more a b path = ground arith

  pair_out-err :
      (amount : ℕ) (a b : Text) {e : RouterError}
      → pair_out reserves amount a b ≡ err e
      → e ≢ out_of_fuel
  pair_out-err amount a b {e} h = elim (Option-cases (reserves a b)) [
    | inl missing ↦ missing_err (rw missing at h)
    | inr (r, here) ↦ lift_err (contract_get_amount_out amount (r.0) (r.1)) (rw here at h)
  ]

  outputs-Ends :
      (amount : ℕ) (a : Text) (path : List Text)
      → Ends (length path) (outputs reserves amount a path)
  unfolding outputs
  outputs-Ends amount a [] = refl
  outputs-Ends amount a (b ∷ path) = elim (Result-cases (pair_out reserves amount a b)) [
    | inl (e, failed) ↦ rw failed (pair_out-err amount a b failed)
    | inr (next, paid) ↦
        rw paid
          (Ends-cons (length path) next (outputs reserves next b path) (outputs-Ends next b path))
  ]

  -- `getAmountsOut` ends on every path: its loop is never stopped by the fuel, and the amounts that it
  -- returns are as many as the tokens of the path.
  pub get_amounts_out-Ends :
      (amount : ℕ) (path : List Text) → Ends (length path) (get_amounts_out reserves amount path)
  unfolding get_amounts_out
  get_amounts_out-Ends amount [] = λ e. cc
  get_amounts_out-Ends amount (a ∷ []) = λ e. cc
  get_amounts_out-Ends amount (a ∷ b ∷ path) = rw (get_amounts_out_lem amount a b path) (
      Ends-cons (length (b ∷ path)) amount (outputs reserves amount a (b ∷ path))
        (outputs-Ends amount a (b ∷ path)))
