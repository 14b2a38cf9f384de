-- ===== src/Review/Locks.antt =====
-- apps/api/app/redis_client.py: the locks that the API takes in Redis. Redis is an interface with
-- the documented behaviour of GET, SET NX EX, EXPIRE and DEL; times are microseconds.
use multimodal_content_moder.Common.{
  ℕ, ◌+◌, ◌*◌, ◌≤◌, ltb, ◌≡◌, String, str_eq, Bool, true, false, Option, none, some, if◌then◌else◌,
}

-- `ex=n` and `timedelta(seconds=n)`
abbrev pub seconds : ℕ → ℕ
seconds n = n * 1000000

-- Keys of one prefix, compared by `same`. The prefixes `claim:` and `ingest:` keep them apart.
pub record LockStore {K : Type 0} (same : K → K → Bool) : Type 1 where
  pub Store : Type 0
  -- `get(key)` at a time
  pub get : ℕ → K → Store → Option String
  -- `set(key, value, nx=True, ex=ttl)` at a time
  pub set_nx : ℕ → K → String → ℕ → Store → Store × Bool
  -- `expire(key, ttl)` at a time
  pub expire : ℕ → K → ℕ → Store → Store
  pub delete : K → Store → Store
  pub set_nx_free :
      (now : ℕ) (k : K) (v : String) (ttl : ℕ) (s : Store)
      → get now k s ≡ none
      → (set_nx now k v ttl s).1 ≡ true
  pub set_nx_held :
      (now : ℕ) (k : K) (v w : String) (ttl : ℕ) (s : Store)
      → get now k s ≡ some w
      → set_nx now k v ttl s ≡ (s, false)
  -- a key that was set is there until its time to live has passed
  pub get-set_nx :
      (now t : ℕ) (k j : K) (v : String) (ttl : ℕ) (s : Store)
      → get now k s ≡ none
      → now ≤ t
      → get t j (set_nx now k v ttl s).0
        ≡ (if same j k then (if ltb t (now + seconds ttl) then some v else none) else get t j s)
  pub get-expire :
      (now t : ℕ) (k j : K) (v : String) (ttl : ℕ) (s : Store)
      → get now k s ≡ some v
      → now ≤ t
      → get t j (expire now k ttl s)
        ≡ (if same j k then (if ltb t (now + seconds ttl) then some v else none) else get t j s)
  pub get-delete :
      (t : ℕ) (k j : K) (s : Store) → get t j (delete k s) ≡ (if same j k then none else get t j s)

abbrev pub claim_ttl_seconds : ℕ
claim_ttl_seconds = 15 * 60

-- `current == reviewer`, where `current` may be None
abbrev pub is_owner : Option String → String → Bool
is_owner none reviewer = false
is_owner (some owner) reviewer = str_eq owner reviewer

module _ {K : Type 0} {same : K → K → Bool} (redis : LockStore same) where
  open redis use {Store, get, set_nx, expire, delete}

  -- `ok, owner` and the store
  abbrev pub ClaimResult : Type 0
  ClaimResult = Bool × Option String × Store

  -- the end of `acquire_review_claim`, from `if current == reviewer`
  unfoldable pub refresh_claim : ℕ → K → String → ℕ → Option String → Store → ClaimResult
  refresh_claim now key reviewer ttl current s =
      if is_owner current reviewer
      then (true, some reviewer, expire now key ttl s)
      else (false, current, s)

  unfoldable pub acquire_review_claim : ℕ → K → String → ℕ → Store → ClaimResult
  unfolding refresh_claim
  acquire_review_claim now key reviewer ttl s = elim (get now key s) [
    | some owner ↦ refresh_claim now key reviewer ttl (some owner) s
    | none ↦
        let (s', acquired) = set_nx now key reviewer ttl s in
        if acquired
        then (true, some reviewer, s')
        else refresh_claim now key reviewer ttl (get now key s') s'
  ]

  unfoldable pub release_review_claim : ℕ → K → String → Store → Store
  release_review_claim now key reviewer s =
      if is_owner (get now key s) reviewer then delete key s else s

  unfoldable pub get_review_claim_owner : ℕ → K → Store → Option String
  get_review_claim_owner now key s = get now key s

  unfoldable pub acquire_ingest_lock : ℕ → K → ℕ → Store → Store × Bool
  acquire_ingest_lock now key ttl s = set_nx now key "1" ttl s
