-- ===== src/Tests/Settings.antt =====
-- The settings after a slippage and a deadline were typed.
use ark_swap.Settings.Doubles.{round_double}
use ark_swap.Prelude.{◌+◌, ◌-◌, ◌^◌, ◌≤◌, some, arith, ◌≡◌, refl, none, Option}
use ark_swap.Prelude.Int.{ℤ, pos, negsuc}
use ark_swap.Analytics.{ratio}
use ark_swap.Settings.{Json, default_settings, type_slippage, type_deadline, deadline_from_now}
use ark_swap.Settings.Range.{InRange, start, next, types_slippage, types_deadline, Reach-InRange}
use ark_swap.Settings.Deadline.{deadline_from_now-exact}

abbrev pub unread : Json → Option ℤ
unread j = none

Reach-InRange_example : InRange (type_slippage (ratio (pos 3) 0) default_settings)
Reach-InRange_example =
    Reach-InRange {big_int = unread}
      (next start (types_slippage (ratio (pos 3) 0) default_settings))

typed_runs :
    ((type_slippage (ratio (pos 3) 0) default_settings).slippage_bps ≡ pos 300)
    × ((type_slippage (ratio (pos 51) 0) default_settings).slippage_bps ≡ pos 50)
    × ((type_slippage (ratio (negsuc 2) 0) default_settings).slippage_bps ≡ pos 50)
unfolding type_slippage
typed_runs = (refl, refl, refl)

-- Half a minute.
deadline_from_now-exact_example :
    (30 ≤ 10_800)
    × (deadline_from_now 1_700_000_000_000 (ratio (pos 1) 1) ≡ some (pos (1_700_000_000 + 30)))
unfolding type_deadline
deadline_from_now-exact_example =
    deadline_from_now-exact {big_int = unread}
      {s = type_deadline (ratio (pos 1) 1) default_settings} 1_700_000_000_000 1 1 30
      (next start (types_deadline (ratio (pos 1) 1) default_settings)) (omega arith) refl refl

-- The double next to a hundredth gives no whole number of seconds; the one next to 0.3333333333 does, after
-- rounding.
deadline_runs :
    (deadline_from_now 1_700_000_000_000 (ratio (pos 5_764_607_523_034_235) (2 ^ 59 - 1)) ≡ none)
    × (deadline_from_now 1_700_000_000_000 (ratio (pos 6_004_799_502_560_181) (2 ^ 54 - 1))
        ≡ some (pos 1_700_000_020))
unfolding deadline_from_now round_double
deadline_runs = (refl, refl)
