-- ===== src/Activity.antt =====
-- apps/web/src/state/activity.tsx: the transactions that the app has sent, newest first. `now` is
-- `Date.now()`, and a stored list is what storage returns to the app.
pub mod Invariant
pub mod Updates
use ark_swap.Prelude.{
  ℕ, ◌-◌, ◌*◌, Bool, true, false, not, ◌&&◌, Option, none, some, List, [], ◌∷◌, map, Text, text_eq,
  lower, ltb, if◌then◌else◌, filter, filter_map, any, take, length,
}

pub data ActivityKind : Type 0 where
  swap : ActivityKind
  approve : ActivityKind
  add : ActivityKind
  remove : ActivityKind
  mint : ActivityKind

pub data ActivityStatus : Type 0 where
  pending : ActivityStatus
  confirmed : ActivityStatus
  failed : ActivityStatus

pub record ActivityItem : Type 0 where
  pub hash : Text
  pub kind : ActivityKind
  pub summary : Text
  pub status : ActivityStatus
  pub created_at : ℕ
  pub account : Text

-- What a form hands over.
pub record Tracked : Type 0 where
  pub hash : Text
  pub kind : ActivityKind
  pub summary : Text

abbrev pub stale_after_ms : ℕ
stale_after_ms = 3 * 60 * 60 * 1000

abbrev pub max_items : ℕ
max_items = 60

abbrev pub is_pending : ActivityItem → Bool
is_pending i = elim i.status [ pending ↦ true | confirmed ↦ false | failed ↦ false ]

-- The age is taken before the test; a clock that went back gives a negative age, which is not stale.
unfoldable pub is_stale : ℕ → ActivityItem → Bool
is_stale now i = is_pending i && ltb stale_after_ms (now - i.created_at)

abbrev pub has_hash : Text → ActivityItem → Bool
has_hash h i = text_eq (lower i.hash) (lower h)

-- The effect that loads the stored list: an entry without a text hash is dropped, and what is no array
-- gives no entries.
unfoldable pub hydrate : Option (List (Option ActivityItem)) → List ActivityItem
hydrate none = []
hydrate (some raw) = filter_map (λ i. i) raw

-- What the effect stores.
unfoldable pub persist : List ActivityItem → List ActivityItem
persist items = take max_items items

unfoldable pub track : Option Text → ℕ → Tracked → List ActivityItem → List ActivityItem
track none now item prev = prev
track (some address) now item prev =
    if any (has_hash item.hash) prev
    then prev
    else take max_items (
        record {
          hash = item.hash;
          kind = item.kind;
          summary = item.summary;
          status = pending;
          created_at = now;
          account = address;
        }
        ∷ prev)

abbrev pub settle_item : Text → ActivityStatus → ActivityItem → ActivityItem
settle_item h status i = if has_hash h i then record i { status = status } else i

unfoldable pub settle : Text → ActivityStatus → List ActivityItem → List ActivityItem
settle h status prev = map (settle_item h status) prev

unfoldable pub dismiss : Text → List ActivityItem → List ActivityItem
dismiss h prev = filter (λ i. not (has_hash h i)) prev

abbrev pub is_live : ℕ → ActivityItem → Bool
is_live now i = is_pending i && not (is_stale now i)

unfoldable pub clear : ℕ → List ActivityItem → List ActivityItem
unfolding is_stale
clear now prev = filter (is_live now) prev

-- The items of the connected account.
unfoldable pub account_items : Option Text → List ActivityItem → List ActivityItem
account_items none all = []
account_items (some address) all = filter (λ i. text_eq (lower i.account) (lower address)) all

-- The items that are watched, and the count that is shown.
unfoldable pub watched : ℕ → List ActivityItem → List ActivityItem
unfolding is_stale
watched now all = filter (is_live now) all

unfoldable pub pending_count : ℕ → Option Text → List ActivityItem → ℕ
unfolding is_stale account_items
pending_count now address all = length (filter (is_live now) (account_items address all))

-- What `useWaitForTransactionReceipt` reports of a watched hash.
pub data Receipt : Type 0 where
  waiting : Receipt
  success : Receipt
  reverted : Receipt
  error : Receipt

-- `PendingWatcher`.
unfoldable pub watch : Text → Receipt → List ActivityItem → List ActivityItem
unfolding settle
watch h waiting all = all
watch h success all = settle h confirmed all
watch h reverted all = settle h failed all
watch h error all = settle h failed all
