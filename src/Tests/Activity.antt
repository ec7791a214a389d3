-- ===== src/Tests/Activity.antt =====
-- A swap that is tracked, confirmed and cleared.
use ark_swap.Prelude.{refl, some, [], Text, codes, text_eq, lower}
use ark_swap.Activity.{
  ActivityItem, Tracked, swap, approve, pending, confirmed, success, track, watch, watched,
}
use ark_swap.Activity.Invariant.{IsValid, tracks, settles, Reach, empty, next, Reach-IsValid}

abbrev pub account : Text
account = codes "0xa"

abbrev sent : Tracked
sent = record { hash = codes "0xF1"; kind = swap; summary = codes "swap" }

abbrev pub sent_item : ActivityItem
sent_item = record {
  hash = codes "0xF1";
  kind = swap;
  summary = codes "swap";
  status = pending;
  created_at = 1000;
  account = account;
}

abbrev pub other_item : ActivityItem
other_item = record {
  hash = codes "0xf2";
  kind = approve;
  summary = codes "approve";
  status = confirmed;
  created_at = 900;
  account = account;
}

run : Reach (watch (codes "0xf1") success (track (some account) 1000 sent []))
unfolding track text_eq lower watched
run =
    next (next empty (tracks (some account) 1000 sent []))
      (settles 1500 (codes "0xf1") success _ refl)

Reach-IsValid_example : IsValid (watch (codes "0xf1") success (track (some account) 1000 sent []))
Reach-IsValid_example = Reach-IsValid run
