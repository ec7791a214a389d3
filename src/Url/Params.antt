-- ===== src/Url/Params.antt =====
-- `URLSearchParams`: the parameters of an address in their order.
use ark_swap.Prelude.{
  ◌≡◌, refl, true, false, not, Option, none, some, List, [], ◌∷◌, Text, text_eq, text_eq_refl,
  text_eq_iff, if◌then◌else◌, filter, Bool-cases, inl, inr,
}

abbrev pub Query : Type 0
Query = List (Text × Text)

-- `params.get(key)`.
unfoldable pub get : Text → Query → Option Text
get key [] = none
get key ((k, v) ∷ rest) = if text_eq k key then some v else get key rest

-- `params.delete(key)`.
unfoldable pub delete : Text → Query → Query
delete key params = filter (λ p. not (text_eq (p.0) key)) params

-- `params.set(key, value)`: the first takes the value, the others of the key go.
unfoldable pub set : Text → Text → Query → Query
unfolding delete
set key value [] = (key, value) ∷ []
set key value ((k, v) ∷ rest) =
    if text_eq k key then (k, value) ∷ delete key rest else (k, v) ∷ set key value rest

pub get-set : (key value : Text) (params : Query) → get key (set key value params) ≡ some value
unfolding get set
get-set key value [] = rw (text_eq_refl key) refl
get-set key value ((k, v) ∷ rest) = elim (Bool-cases (text_eq k key)) [
  | inl e ↦ rw (e, get, e) refl
  | inr e ↦ rw (e, get, e) (get-set key value rest)
]

pub get-delete : (key : Text) (params : Query) → get key (delete key params) ≡ none
unfolding get delete
get-delete key [] = refl
get-delete key ((k, v) ∷ rest) = elim (Bool-cases (text_eq k key)) [
  | inl e ↦ rw (e, delete) (get-delete key rest)
  | inr e ↦ rw (e, get, e) (get-delete key rest)
]

module _ (key other : Text) (differ : text_eq key other ≡ false) where
  elsewhere : (k : Text) → text_eq k key ≡ true → text_eq k other ≡ false
  elsewhere k e = rw ((text_eq_iff k key).0 e) differ

  pub get-delete_other : (params : Query) → get other (delete key params) ≡ get other params
  unfolding get delete
  get-delete_other [] = refl
  get-delete_other ((k, v) ∷ rest) = elim (Bool-cases (text_eq k key)) [
    | inl e ↦ rw (e, elsewhere k e, delete) (get-delete_other rest)
    | inr e ↦ elim (Bool-cases (text_eq k other)) [
      | inl f ↦ rw (e, get, f) refl
      | inr f ↦ rw (e, get, f) (get-delete_other rest)
    ]
  ]

  pub get-set_other :
      (value : Text) (params : Query) → get other (set key value params) ≡ get other params
  unfolding get set
  get-set_other value [] = rw differ refl
  get-set_other value ((k, v) ∷ rest) = elim (Bool-cases (text_eq k key)) [
    | inl e ↦ rw (e, get, elsewhere k e) (get-delete_other rest)
    | inr e ↦ elim (Bool-cases (text_eq k other)) [
      | inl f ↦ rw (e, get, f) refl
      | inr f ↦ rw (e, get, f) (get-set_other value rest)
    ]
  ]
