-- ===== src/Review/Holding.antt =====
-- Nobody takes a review away from the reviewer who has claimed it, before the claim lapses.
use multimodal_content_moder.Common.{ℕ, ◌+◌, ◌==◌, ◌≤◌, ◌≡◌, refl, String, some, List, All, arith}
use multimodal_content_moder.Schema.{ReviewRow, find_review}
use multimodal_content_moder.Review.Locks.{LockStore, seconds, claim_ttl_seconds}
use multimodal_content_moder.Review.Handlers.{ReviewState}
use multimodal_content_moder.Review.Finality.{Requests}
use multimodal_content_moder.Review.Machine.{
  Phase, waiting, held, closed, phase, claim_end, Act, list_at, claim_at, resolve_at, ReleasesAt,
  Step, Steps, Run,
}
use multimodal_content_moder.Review.Refinement.{acts_of, Requests-Moved}

-- the time of a request
unfoldable pub time_of : Act → ℕ
time_of (list_at now) = now
time_of (claim_at now id reviewer) = now
time_of (resolve_at now id reviewer decision) = now

-- from the claim to the end of its 15 minutes
abbrev pub IsWithin : ℕ → Act → Type 0
IsWithin from a = (from ≤ time_of a) × (time_of a ≤ from + seconds claim_ttl_seconds)

-- held by the reviewer, until the end of the claim at least, or closed
abbrev pub IsOwned : ℕ → String → Phase → Type 0
IsOwned from reviewer waiting = ⊥
IsOwned from reviewer (held by until) =
    (by ≡ some reviewer) × (end : ℕ) × (until ≡ some end) × (from + seconds claim_ttl_seconds ≤ end)
IsOwned from reviewer (closed decision) = Unit

released_within :
    (from now : ℕ) (a : Act)
    → ReleasesAt now a
    → IsWithin from a
    → now ≤ from + seconds claim_ttl_seconds
unfolding time_of
released_within from now _ (ReleasesAt.by_list _) h = h.1
released_within from now _ (ReleasesAt.by_claim _ id reviewer) h = h.1

Step-IsOwned :
    {k : ℕ} {a : Act} {x y : Phase} (from : ℕ) (reviewer : String)
    → IsWithin from a
    → Step k a x y
    → IsOwned from reviewer x
    → IsOwned from reviewer y
unfolding time_of
Step-IsOwned from reviewer within (Step.expire now by until releases over) (own, end, ends, le) =
    absurd (ground (arith, ends, over, le, released_within from now _ releases within))
Step-IsOwned from reviewer within (Step.take now other) h = absurd h
Step-IsOwned from reviewer within (Step.renew now other until) (own, end, ends, le) =
    (own, now + seconds claim_ttl_seconds, refl, omega (arith, within.0))
Step-IsOwned from reviewer within (Step.close now other until decision) h = tt

Steps-IsOwned :
    {k : ℕ} {a : Act} {x y : Phase} (from : ℕ) (reviewer : String)
    → IsWithin from a
    → Steps k a x y
    → IsOwned from reviewer x
    → IsOwned from reviewer y
Steps-IsOwned from reviewer within Steps.here h = h
Steps-IsOwned from reviewer within (Steps.next xs x) h =
    Step-IsOwned from reviewer within x (Steps-IsOwned from reviewer within xs h)

Run-IsOwned :
    {k : ℕ} {x : Phase} {acts : List Act} {y : Phase} (from : ℕ) (reviewer : String)
    → All (IsWithin from) acts
    → Run k x acts y
    → IsOwned from reviewer x
    → IsOwned from reviewer y
Run-IsOwned from reviewer within Run.start h = h
Run-IsOwned from reviewer within (Run.on a run steps) h =
    Steps-IsOwned from reviewer within.0 steps (Run-IsOwned from reviewer within.1 run h)

module _ (F : Type 0) (redis : LockStore ◌==◌) where
  -- the row of the review is there, and it is held by the reviewer or closed
  abbrev pub StaysOwned : ℕ → String → ℕ → ReviewState F redis → Type 0
  StaysOwned from reviewer k u =
      (row : ReviewRow) × (find_review k u.db ≡ some row) × IsOwned from reviewer (phase row)

  -- A review that a reviewer claimed at a time, and whatever requests of anybody follow within the 15
  -- minutes of the claim: afterwards the reviewer still holds it, until the end of the claim at least,
  -- or it is closed.
  pub Requests-StaysOwned :
      {s u : ReviewState F redis} (k from : ℕ) (reviewer : String) (r : ReviewRow)
      (rs : Requests F redis s u)
      → find_review k s.db ≡ some r
      → phase r ≡ held (some reviewer) (claim_end from)
      → All (IsWithin from) (acts_of F redis rs)
      → StaysOwned from reviewer k u
  Requests-StaysOwned k from reviewer r rs at owned within =
      let m = Requests-Moved F redis k r rs at in
      let at_first : IsOwned from reviewer (phase r) =
        rw owned (refl, from + seconds claim_ttl_seconds, refl, omega arith) in
      (m.row, m.found, Run-IsOwned from reviewer within m.run at_first)
