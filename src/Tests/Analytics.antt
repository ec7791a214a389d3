-- ===== src/Tests/Analytics.antt =====
-- A client whose server answers every request with an ok envelope, and the limits of pages.
use ark_swap.Prelude.{ℕ, true, none}
use ark_swap.Analytics.{Request, envelope, Fetched, responded}

abbrev answer : Request → Fetched ℕ
answer r = responded true 200 (envelope 7 none)
