-- ===== src/RateLimit/Window.antt =====
-- What a tenant gets in one window.
use native.Mathlib.Nat.{div-add-mod, mod-lt}
use multimodal_content_moder.Common.{
  ℕ, suc, ◌+◌, ◌-◌, ◌*◌, ◌/◌, ◌≤◌, ◌<◌, leb, ◌≡◌, refl, ap, List, [], ◌∷◌, arith, if◌then◌else◌,
}
use multimodal_content_moder.RateLimit.{
  RateLimitDecision, window_of, evaluate_fixed_window, WindowKey, window_key, CounterStore,
  check_tenant_rate_limit,
}

window_end : (now w : ℕ) → 0 < w → (now < (now / w + 1) * w) × ((now / w + 1) * w ≤ now + w)
window_end now w h = omega (arith, div-add-mod now w, mod-lt now h)

same_window : (t now w : ℕ) → 0 < w → t / w ≡ now / w → t < now + w
same_window t now w h e =
    omega
      (arith, div-add-mod now w, mod-lt now h, div-add-mod t w, mod-lt t h, ap (λ (q : ℕ). w * q) e)

-- With a limit, a decision allows exactly the counts up to it; `remaining` is what is left of it;
-- the window ends after now, and within one window's length; a denied request is told to come back
-- exactly then, and an allowed one is told nothing.
pub decision_of_count :
    (count limit window_seconds now : ℕ)
    → 0 < limit
    → let d = evaluate_fixed_window count limit window_seconds now in
      (d.allowed ≡ leb count limit)
      × (d.remaining ≡ limit - count)
      × (now < d.reset_at)
      × (d.reset_at ≤ now + window_of window_seconds)
      × (d.retry_after ≡ (if d.allowed then 0 else d.reset_at - now))
unfolding evaluate_fixed_window
decision_of_count count limit window_seconds now h =
    ground (arith, window_end now (window_of window_seconds))

module _ (redis : CounterStore) (tenant : List ℕ) (limit window_seconds : ℕ) where
  -- the decisions of the requests that a tenant sends at the given times
  pub decisions : List ℕ → redis.Store → List RateLimitDecision
  decisions [] s = []
  decisions (now ∷ later) s =
      let (d, s') = check_tenant_rate_limit redis tenant limit window_seconds now s in
      d ∷ decisions later s'

  -- times that do not go back, all in the window of the bucket
  abbrev pub InWindow : ℕ → ℕ → List ℕ → Type 0
  InWindow bucket from [] = Unit
  InWindow bucket from (now ∷ later) =
      (from ≤ now) × (now / window_of window_seconds ≡ bucket) × InWindow bucket now later

  -- the requests are counted from n + 1 on, and allowed while the count is within the limit
  abbrev pub Grants : ℕ → List RateLimitDecision → Type 0
  Grants n [] = Unit
  Grants n (d ∷ ds) = (d.count ≡ suc n) × (d.allowed ≡ leb (suc n) limit) × Grants (suc n) ds

  abbrev key : ℕ → WindowKey
  key bucket = record { tenant = tenant; bucket = bucket }

  -- the counter stands at `n` for the rest of the window
  abbrev Stands : ℕ → ℕ → ℕ → redis.Store → Type 0
  Stands bucket from n s =
      (t : ℕ) → from ≤ t → t / window_of window_seconds ≡ bucket → redis.value t (key bucket) s ≡ n

  check_again :
      (n now bucket : ℕ) (s : redis.Store)
      → 0 < limit
      → now / window_of window_seconds ≡ bucket
      → redis.value now (key bucket) s ≡ suc n
      → check_tenant_rate_limit redis tenant limit window_seconds now s ≡ (
        evaluate_fixed_window (suc (suc n)) limit window_seconds now,
        (redis.incr now (key bucket) s).0,
      )
  unfolding check_tenant_rate_limit
  check_again n now bucket s pos e at = rw e (ground (arith, redis.incr_counts now (key bucket) s))

  check_first :
      (now bucket : ℕ) (s : redis.Store)
      → 0 < limit
      → now / window_of window_seconds ≡ bucket
      → redis.value now (key bucket) s ≡ 0
      → check_tenant_rate_limit redis tenant limit window_seconds now s ≡ (
        evaluate_fixed_window 1 limit window_seconds now,
        redis.expire now (key bucket) (window_of window_seconds) (redis.incr now (key bucket) s).0,
      )
  unfolding check_tenant_rate_limit
  check_first now bucket s pos e at = rw e (ground (arith, redis.incr_counts now (key bucket) s))

  count_of_evaluate :
      (count now : ℕ)
      → 0 < limit
      → ((evaluate_fixed_window count limit window_seconds now).count ≡ count)
        × ((evaluate_fixed_window count limit window_seconds now).allowed ≡ leb count limit)
  unfolding evaluate_fixed_window
  count_of_evaluate count now pos = ground arith

  later_requests :
      (n bucket from : ℕ) (later : List ℕ) (s : redis.Store)
      → 0 < limit
      → Stands bucket from (suc n) s
      → InWindow bucket from later
      → Grants (suc n) (decisions later s)
  unfolding decisions
  later_requests n bucket from [] s pos stands within = tt
  later_requests n bucket from (now ∷ later) s pos stands within =
      let count = suc (suc n) in
      let s' = (redis.incr now (key bucket) s).0 in
      rw (check_again n now bucket s pos within.1 (stands now within.0 within.1)) (
        (count_of_evaluate count now pos).0,
        (count_of_evaluate count now pos).1,
        later_requests (suc n) bucket now later s' pos
            (λ t le e. redis.value-incr now t n (key bucket) s le (stands t (omega arith) e))
            within.2,
      )

  -- Under a positive limit, the requests that a tenant sends in one window, at times that do not go
  -- back and the first of them to a fresh counter, are
  -- counted 1, 2, 3, ... and exactly the first `limit` of them are allowed.
  pub window-Grants :
      (now : ℕ) (later : List ℕ) (s : redis.Store)
      → 0 < limit
      → redis.value now (window_key tenant window_seconds now) s ≡ 0
      → InWindow (now / window_of window_seconds) now later
      → Grants 0 (decisions (now ∷ later) s)
  unfolding decisions
  window-Grants now later s pos fresh within =
      let w = window_of window_seconds in
      let bucket = now / w in
      let s' = redis.expire now (key bucket) w (redis.incr now (key bucket) s).0 in
      rw (check_first now bucket s pos refl fresh) (
        (count_of_evaluate 1 now pos).0,
        (count_of_evaluate 1 now pos).1,
        later_requests 0 bucket now later s' pos
            (λ t le e.
              redis.value-expire_fresh now t w (key bucket) s fresh le
                (same_window t now w (omega arith) e))
            within,
      )
