-- ===== src/Theme/Applied.antt =====
-- The page and the storage follow the theme.
use ark_swap.Prelude.{
  ◌≡◌, refl, Bool, true, Option, none, some, Text, codes, text_eq, Bool-cases, inl, inr,
}
use ark_swap.Theme.{
  Theme, dark, light, ThemeState, apply_theme, initial, paint, boot, mount, set_theme, toggle,
  other,
}

-- The states after the effect of the provider has run on any storage.
pub data Reach : ThemeState → Type 0 where
  mounted : (s : ThemeState) → Reach (mount s)
  chosen :
      {s : ThemeState} (is_written : Bool) (t : Theme) → Reach s → Reach (set_theme is_written t s)
  toggled : {s : ThemeState} (is_written : Bool) → Reach s → Reach (toggle is_written s)

-- The attribute of the page is always that of the theme.
pub Reach-applied : {s : ThemeState} → Reach s → s.attribute ≡ apply_theme s.theme
unfolding mount set_theme toggle
Reach-applied (mounted s) = refl
Reach-applied (chosen is_written t r) = refl
Reach-applied (toggled is_written r) = refl

-- A stored choice is the theme of the page that is opened next, whatever that page had before.
pub mount-set_theme :
    (t : Theme) (s next : ThemeState)
    → next.stored ≡ (set_theme true t s).stored
    → (mount next).theme ≡ t
unfolding mount set_theme initial text_eq
mount-set_theme dark s next e = rw e refl
mount-set_theme light s next e = rw e refl

-- Toggling twice gives the theme back.
pub toggle-toggle : (a b : Bool) (s : ThemeState) → (toggle a (toggle b s)).theme ≡ s.theme
unfolding set_theme toggle
toggle-toggle a b s = back s.theme
  where
    back : (t : Theme) → other (other t) ≡ t
    back dark = refl
    back light = refl

-- On a page without the attribute the script paints what the provider settles on.
pub boot-mount : (s : ThemeState) → s.attribute ≡ none → (boot s).attribute ≡ (mount s).attribute
unfolding boot mount initial apply_theme
boot-mount s bare = rw bare (painted s.stored)
  where
    painted : (o : Option Text) → paint o none ≡ apply_theme (initial o)
    painted none = refl
    painted (some t) = elim (Bool-cases (text_eq t (codes "light"))) [
      | inl e ↦ rw e refl
      | inr e ↦ rw e refl
    ]
