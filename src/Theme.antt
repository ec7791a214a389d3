-- ===== src/Theme.antt =====
-- apps/web/src/state/theme.tsx and apps/web/src/config/theme.ts: the theme, the attribute `data-theme` of the page and the stored choice as
-- one state. A write to the storage may fail, which is an argument.
pub mod Applied
use ark_swap.Prelude.{Bool, Option, none, some, Text, codes, text_eq, if◌then◌else◌}

pub data Theme : Type 0 where
  dark : Theme
  light : Theme

pub record ThemeState : Type 0 where
  pub theme : Theme
  pub attribute : Option Text
  pub stored : Option Text

abbrev pub theme_text : Theme → Text
theme_text dark = codes "dark"
theme_text light = codes "light"

-- What `applyTheme` leaves of the attribute.
unfoldable pub apply_theme : Theme → Option Text
apply_theme dark = none
apply_theme light = some (codes "light")

unfoldable pub initial : Option Text → Theme
initial none = dark
initial (some t) = if text_eq t (codes "light") then light else dark

abbrev pub paint : Option Text → Option Text → Option Text
paint none attribute = attribute
paint (some t) attribute = if text_eq t (codes "light") then some (codes "light") else attribute

-- `THEME_BOOT_SCRIPT`, which runs before the first paint.
unfoldable pub boot : ThemeState → ThemeState
boot s = record s { attribute = paint s.stored s.attribute }

-- The effect that runs once.
unfoldable pub mount : ThemeState → ThemeState
mount s = record s { theme = initial s.stored; attribute = apply_theme (initial s.stored) }

unfoldable pub set_theme : (is_written : Bool) → Theme → ThemeState → ThemeState
set_theme is_written t s = record {
  theme = t;
  attribute = apply_theme t;
  stored = if is_written then some (theme_text t) else s.stored;
}

abbrev pub other : Theme → Theme
other dark = light
other light = dark

unfoldable pub toggle : (is_written : Bool) → ThemeState → ThemeState
unfolding set_theme
toggle is_written s = set_theme is_written (other s.theme) s
