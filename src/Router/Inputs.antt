-- ===== src/Router/Inputs.antt =====
-- The loop of `getAmountsIn` in ArkSwapLibrary.sol computes the inputs hop by hop from the end.
use mathlib.Core.List.{append_assoc, reverse-cons, map-append}
use mathlib.Core.Path.{fun_ext}
use ark_swap.Prelude.{
  ℕ, zero, suc, ◌+◌, ◌-◌, ◌≡◌, refl, sym, ap, ◌∙◌, true, List, [], ◌∷◌, ◌++◌, reverse, Text, arith,
  Result, ok, ◌>>=◌, length, set, set-append, length-append, inl, inr, Result-cases, leb,
}
use ark_swap.Router.{RouterError, Reserves, zeros, pair_in, in_step, in_loop, get_amounts_in}
use ark_swap.Router.Outputs.{get_at}

-- The inputs before `amount` of the token `b` back along a path that is given from its end, in front of
-- the amounts that are known.
unfoldable pub inputs : Reserves → ℕ → Text → List Text → List ℕ → Result RouterError (List ℕ)
inputs reserves amount b [] known = ok (amount ∷ known)
inputs reserves amount b (a ∷ back) known = do
  before ← pair_in reserves amount a b
  inputs reserves before a back (amount ∷ known)

module _ (reserves : Reserves) where
  length-reverse_snoc :
      {A : Type 0} (l : List A) (x : A) → length (reverse (x ∷ l)) ≡ length (reverse l) + 1
  length-reverse_snoc l x = rw reverse-cons (omega (arith, length-append (reverse l) (x ∷ [])))

  length-reverse : {A : Type 0} (l : List A) → length (reverse l) ≡ length l
  length-reverse [] = refl
  length-reverse (x ∷ l) = omega (arith, length-reverse_snoc l x, length-reverse l)

  reverse-snoc :
      {A : Type 0} (l : List A) (x : A) (r : List A) → reverse (x ∷ l) ++ r ≡ reverse l ++ x ∷ r
  reverse-snoc l x r = rw reverse-cons (append_assoc (reverse l) (x ∷ []) r)

  in_step_lem :
      (before : List ℕ) (passed : List Text) (z amount : ℕ) (known : List ℕ) (a b : Text)
      (path : List Text)
      → length before ≡ length passed
      → in_step reserves (passed ++ a ∷ b ∷ path) (length passed) (before ++ z ∷ amount ∷ known)
        ≡ (pair_in reserves amount a b >>= λ first. ok (before ++ first ∷ amount ∷ known))
  unfolding in_step
  in_step_lem before passed z amount known a b path e =
      rw
        (
          get_at passed (a ∷ b ∷ path) (length passed) 0 (omega arith),
          get_at passed (a ∷ b ∷ path) (length passed + 1) 1 refl,
          get_at before (z ∷ amount ∷ known) (length passed + 1) 1 (omega arith),
        )
        (ap (λ f. pair_in reserves amount a b >>= λ first. ok (f first))
          (fun_ext λ first. set_at first))
    where
      set_at :
          (first : ℕ)
          → set (before ++ z ∷ amount ∷ known) (length passed) first
            ≡ before ++ first ∷ amount ∷ known
      set_at first =
          let here : length passed ≡ length before + 0 = omega arith in
          rw here (set-append before (z ∷ amount ∷ known) 0 first)

  -- The loop fills in the inputs from the end of the path.
  in_loop_lem :
      (j : ℕ) (blank amounts known : List ℕ) (back whole : List Text) (amount : ℕ) (b : Text)
      (path : List Text)
      → j ≡ length back
      → length blank ≡ length back
      → whole ≡ reverse back ++ b ∷ path
      → amounts ≡ reverse blank ++ amount ∷ known
      → in_loop reserves whole j amounts ≡ inputs reserves amount b back known
  unfolding in_loop inputs
  in_loop_lem zero [] amounts known [] whole amount b path ej e ew ea = rw ea refl
  in_loop_lem zero (z ∷ blank) amounts known [] whole amount b path ej e ew ea =
      absurd (omega arith)
  in_loop_lem zero blank amounts known (a ∷ back) whole amount b path ej e ew ea =
      absurd (omega arith)
  in_loop_lem (suc j) blank amounts known [] whole amount b path ej e ew ea = absurd (omega arith)
  in_loop_lem (suc j) [] amounts known (a ∷ back) whole amount b path ej e ew ea =
      absurd (omega arith)
  in_loop_lem (suc j) (z ∷ blank) amounts known (a ∷ back) whole amount b path ej e ew ea =
      let w : whole ≡ reverse back ++ a ∷ b ∷ path = ew ∙ reverse-snoc back a (b ∷ path) in
      let m : amounts ≡ reverse blank ++ z ∷ amount ∷ known =
        ea ∙ reverse-snoc blank z (amount ∷ known) in
      let at : j ≡ length (reverse back) = omega (arith, length-reverse back) in
      let stepped : in_step reserves whole j amounts ≡ (
          pair_in reserves amount a b >>= λ first. ok (reverse blank ++ first ∷ amount ∷ known)) =
        rw (w, m, at)
          (in_step_lem (reverse blank) (reverse back) z amount known a b path
            (omega (arith, length-reverse blank, length-reverse back))) in
      rw stepped (elim (Result-cases (pair_in reserves amount a b)) [
        | inl (x, failed) ↦ rw failed refl
        | inr (first, paid) ↦ rw paid (
            in_loop_lem j blank (reverse blank ++ first ∷ amount ∷ known) (amount ∷ known) back
              whole first a (b ∷ path) (omega arith) (omega arith) w refl)
      ])

  zeros-reverse : (back : List Text) → zeros (reverse back) ≡ reverse (zeros back)
  zeros-reverse [] = refl
  zeros-reverse (x ∷ l) =
      let cut : reverse (x ∷ l) ≡ reverse l ++ x ∷ [] = reverse-cons x l in
      rw cut (
        map-append (λ a. 0) (reverse l) (x ∷ [])
        ∙ ap (λ r. r ++ 0 ∷ []) (zeros-reverse l)
        ∙ sym (reverse-cons 0 (zeros l)))

  length-zeros : (path : List Text) → length (zeros path) ≡ length path
  length-zeros [] = refl
  length-zeros (a ∷ path) = ap suc (length-zeros path)

  -- `getAmountsIn` returns the inputs, hop by hop from the end, and the amount.
  pub get_amounts_in_lem :
      (amount : ℕ) (a b : Text) (back path : List Text)
      → path ≡ reverse (a ∷ back) ++ b ∷ []
      → get_amounts_in reserves amount path ≡ inputs reserves amount b (a ∷ back) []
  unfolding get_amounts_in
  get_amounts_in_lem amount a b back path e = rw enough (
      in_loop_lem (length path - 1) (zeros (a ∷ back)) (set (zeros path) (length path - 1) amount)
        [] (a ∷ back) path amount b [] (omega (arith, long)) (length-zeros (a ∷ back)) e filled)
    where
      long : length path ≡ length back + 2
      long =
          rw e
            (omega (arith, length-append (reverse (a ∷ back)) (b ∷ []), length-reverse (a ∷ back)))

      enough : leb 2 (length path) ≡ true
      enough = ground (arith, long)

      blank : zeros path ≡ reverse (zeros (a ∷ back)) ++ 0 ∷ []
      blank =
          ap zeros e
          ∙ map-append (λ x. 0) (reverse (a ∷ back)) (b ∷ [])
          ∙ ap (λ l. l ++ 0 ∷ []) (zeros-reverse (a ∷ back))

      filled : set (zeros path) (length path - 1) amount ≡ reverse (zeros (a ∷ back)) ++ amount ∷ []
      filled =
          let at : length path - 1 ≡ length (reverse (zeros (a ∷ back))) + 0 =
            omega (arith, long, length-reverse (zeros (a ∷ back)), length-zeros (a ∷ back)) in
          rw (blank, at) (set-append (reverse (zeros (a ∷ back))) (0 ∷ []) 0 amount)
