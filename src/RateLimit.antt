-- ===== src/RateLimit.antt =====
-- apps/api/app/rate_limit.py: the fixed-window limit of a tenant. Times are whole seconds. The
-- limit and the window are natural numbers: a negative setting acts as 0.
pub mod Window
use multimodal_content_moder.Common.{
  ℕ, suc, ◌+◌, ◌-◌, ◌*◌, ◌/◌, ◌≤◌, ◌<◌, max, ◌==◌, ltb, leb, ◌≡◌, String, Bool, true, false, ◌&&◌,
  ◌||◌, not, Option, none, some, List, [], ◌∷◌, length, if◌then◌else◌, strip,
}

pub record RateLimitDecision : Type 0 where
  pub allowed : Bool
  pub limit : ℕ
  pub remaining : ℕ
  pub retry_after : ℕ
  pub reset_at : ℕ
  pub count : ℕ

-- `[a-zA-Z0-9]` and `[a-zA-Z0-9._-]`
abbrev pub is_alnum : ℕ → Bool
is_alnum c = (leb b'a' c && leb c b'z') || (leb b'A' c && leb c b'Z') || (leb b'0' c && leb c b'9')

abbrev pub is_tenant_char : ℕ → Bool
is_tenant_char c = is_alnum c || c == b'.' || c == b'_' || c == b'-'

unfoldable pub all_tenant_chars : List ℕ → Bool
all_tenant_chars [] = true
all_tenant_chars (c ∷ s) = is_tenant_char c && all_tenant_chars s

-- `_TENANT_RE.match(value)`, on a text that was stripped
unfoldable pub is_tenant_id : List ℕ → Bool
unfolding all_tenant_chars
is_tenant_id [] = false
is_tenant_id (c ∷ s) = is_alnum c && all_tenant_chars s && leb (length s) 63

unfoldable pub normalize_tenant_id : Option (List ℕ) → List ℕ → List ℕ
unfolding is_tenant_id
normalize_tenant_id none default = default
normalize_tenant_id (some raw) default = if is_tenant_id (strip raw) then strip raw else default

-- `max(1, window_seconds)`
abbrev pub window_of : ℕ → ℕ
window_of window_seconds = max 1 window_seconds

unfoldable pub evaluate_fixed_window : ℕ → ℕ → ℕ → ℕ → RateLimitDecision
evaluate_fixed_window count limit window_seconds now =
    if leb limit 0
    then record {
      allowed = true;
      limit = 0;
      remaining = 0;
      retry_after = 0;
      reset_at = 0;
      count = count;
    }
    else (let window = window_of window_seconds in
        let reset_at = ((now / window) + 1) * window in
        let retry_after = max 1 (reset_at - now) in
        let allowed = leb count limit in
        record {
          allowed = allowed;
          limit = limit;
          remaining = if not allowed then 0 else max 0 (limit - count);
          retry_after = if not allowed then retry_after else 0;
          reset_at = reset_at;
          count = count;
        })

-- `ratelimit:tenant:{tenant_id}:{bucket}`; a tenant id has no colon, so the parts can be told apart
pub record WindowKey : Type 0 where
  pub tenant : List ℕ
  pub bucket : ℕ

abbrev pub window_key : List ℕ → ℕ → ℕ → WindowKey
window_key tenant_id window_seconds now = record {
  tenant = tenant_id;
  bucket = now / window_of window_seconds;
}

-- What the limiter uses of Redis: INCR and EXPIRE. `value t k s` is what GET of `k` would count at
-- `t`, if nothing else happens, with 0 for a key that is not there.
pub record CounterStore : Type 1 where
  pub Store : Type 0
  pub value : ℕ → WindowKey → Store → ℕ
  pub incr : ℕ → WindowKey → Store → Store × ℕ
  pub expire : ℕ → WindowKey → ℕ → Store → Store
  pub incr_counts : (now : ℕ) (k : WindowKey) (s : Store) → (incr now k s).1 ≡ value now k s + 1
  -- a fresh key counts 1 until the time to live that EXPIRE gives it
  pub value-expire_fresh :
      (now t ttl : ℕ) (k : WindowKey) (s : Store)
      → value now k s ≡ 0
      → now ≤ t
      → t < now + ttl
      → value t k (expire now k ttl (incr now k s).0) ≡ 1
  -- INCR keeps the time to live of a key
  pub value-incr :
      (now t n : ℕ) (k : WindowKey) (s : Store)
      → now ≤ t
      → value t k s ≡ suc n
      → value t k (incr now k s).0 ≡ suc (suc n)

module _ (redis : CounterStore) where
  open redis use {Store, incr, expire}

  unfoldable pub check_tenant_rate_limit : List ℕ → ℕ → ℕ → ℕ → Store → RateLimitDecision × Store
  check_tenant_rate_limit tenant_id limit window_seconds now s =
      if leb limit 0
      then (evaluate_fixed_window 0 0 window_seconds now, s)
      else (let key = window_key tenant_id window_seconds now in
          let (s', count) = incr now key s in
          (
            evaluate_fixed_window count limit window_seconds now,
            if count == 1 then expire now key (window_of window_seconds) s' else s',
          ))
