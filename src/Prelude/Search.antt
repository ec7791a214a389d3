-- ===== src/Prelude/Search.antt =====
-- Text in text, and a map with text keys.
use mathlib.Core.Path.{◌≡◌, refl}
use mathlib.Core.Bool.{Bool, true, false, ◌&&◌, ◌||◌}
use mathlib.Core.Option.{Option, none, some}
use mathlib.Core.List.{List, [], ◌∷◌}
use native.Mathlib.Omega.{arith}
use ark_swap.Prelude.Tests.{◌==◌, if◌then◌else◌}
use ark_swap.Prelude.Texts.{Text, text_eq, text_eq_iff}

abbrev pub starts_with : Text → Text → Bool
starts_with [] s = true
starts_with (q ∷ qs) [] = false
starts_with (q ∷ qs) (c ∷ s) = (q == c) && starts_with qs s

-- `s.includes(q)`.
abbrev pub includes : Text → Text → Bool
includes [] q = starts_with q []
includes (c ∷ s) q = starts_with q (c ∷ s) || includes s q

module _ {ℓ} {V : Type ℓ} where
  -- `Map.get` and `Map.set`.
  abbrev pub map_get : Text → List (Text × V) → Option V
  map_get k [] = none
  map_get k ((j, v) ∷ m) = if text_eq j k then some v else map_get k m

  abbrev pub map_set : Text → V → List (Text × V) → List (Text × V)
  map_set k v [] = (k, v) ∷ []
  map_set k v ((j, w) ∷ m) = if text_eq j k then (j, v) ∷ m else (j, w) ∷ map_set k v m

  pub map_get-map_set :
      (k j : Text) (v : V) (m : List (Text × V))
      → map_get j (map_set k v m) ≡ (if text_eq k j then some v else map_get j m)
  map_get-map_set k j v [] = refl
  map_get-map_set k j v ((i, w) ∷ m) =
      ground (arith, text_eq_iff k j, text_eq_iff i k, text_eq_iff i j, map_get-map_set k j v m)
