-- ===== src/Examples/Instances.antt =====
-- Concrete instances of what the development takes from outside: floats as ten-thousandths, Redis
-- as a function of key and time, and a small database.
use native.Mathlib.Nat.{mul-le-mul, mul-div-le, le_of_mul-le-mul_left, le_trans}
use multimodal_content_moder.Common.{
  leb→le, le→leb, ◌-◌, ℕ, suc, ◌+◌, ◌*◌, ◌/◌, ◌==◌, ◌≤◌, ◌<◌, ◌≡◌, ltb, leb, String, Bool, true,
  false, ◌&&◌, Option, none, some, [], ◌∷◌, arith, ==_refl, if◌then◌else◌, codes, text_eq,
  text_eq_iff, refl,
}
use multimodal_content_moder.Common.Exec.{ok, err}
use multimodal_content_moder.Common.Float.{FloatOps}
use multimodal_content_moder.Policy.{Decision, allow}
use multimodal_content_moder.Envelope.{VisionSignals, LlmSignals}
use multimodal_content_moder.Schema.{ContentItem, Job, queued, Db, empty_db}
use multimodal_content_moder.Worker.Pipeline.{Settings, Services, JobMessage, other_error}
use multimodal_content_moder.Review.Locks.{LockStore}
use multimodal_content_moder.RateLimit.{WindowKey, CounterStore}

pub leb_trans : (a b c : ℕ) → leb a b ≡ true → leb b c ≡ true → leb a c ≡ true
leb_trans a b c h k = ground arith

pub leb_of_ltb : (a b : ℕ) → ltb a b ≡ true → leb a b ≡ true
leb_of_ltb a b h = ground arith

pub leb-false_of_ltb : (a b : ℕ) → ltb a b ≡ true → leb b a ≡ false
leb-false_of_ltb a b h = ground arith

pub add_mono : (a a' b b' : ℕ) → leb a a' ≡ true → leb b b' ≡ true → leb (a + b) (a' + b') ≡ true
add_mono a a' b b' h k = ground arith

pub mul_mono :
    (a a' b b' : ℕ)
    → leb a a' ≡ true
    → leb b b' ≡ true
    → leb (a * b / 10000) (a' * b' / 10000) ≡ true
mul_mono a a' b b' h k = le→leb _ _ (omega (arith, mul-le-mul (leb→le a a' h) (leb→le b b' k)))

pub add-lit : (n m : ℕ) → (leb (n + m - 1) (n + m) ≡ true) × (leb (n + m) (n + m + 1) ≡ true)
add-lit n m = (ground arith, ground arith)

pub mul-lit :
    (n m : ℕ)
    → (leb (n * m / 10000 - 1) (n * m / 10000) ≡ true)
      × (leb (n * m / 10000) (n * m / 10000 + 1) ≡ true)
mul-lit n m = (le→leb _ _ (omega arith), le→leb _ _ (omega arith))

pub div-unit :
    (a n : ℕ)
    → 0 < n
    → leb a n ≡ true
    → (leb 0 (a * 10000 / n) ≡ true) × (leb (a * 10000 / n) 10000 ≡ true)
div-unit a n pos h = (
  le→leb _ _ (omega arith),
  le→leb _ _ (
      le_of_mul-le-mul_left (le_trans (mul-div-le (a * 10000) n) (omega (arith, leb→le a n h)))
        pos),
)

abbrev pub fixed : FloatOps
fixed = record {
  F = ℕ;
  leb = leb;
  ltb = ltb;
  add = λ a b. a + b;
  mul = λ a b. a * b / 10000;
  div = λ a b. a * 10000 / b;
  lit = λ n. n;
  round4 = λ a. a;
  leb_trans = leb_trans;
  leb_of_ltb = leb_of_ltb;
  leb-false_of_ltb = leb-false_of_ltb;
  leb-lit = λ n m h k. refl;
  ltb-lit = λ n m h k. refl;
  round4-lit = λ n h. refl;
  round4-mono = λ a b h. h;
  add-mono = λ a a' b b' _ _. add_mono a a' b b';
  mul-mono = λ a a' b b' _ _ h k _ _. mul_mono a a' b b' h k;
  add-lit = λ n m _ _. add-lit n m;
  mul-lit = λ n m _ _. mul-lit n m;
  div-unit = λ a n pos _ _ h. div-unit a n pos h;
}

-- the locks of keys of any type
module _ {K : Type 0} (same : K → K → Bool) where
  abbrev pub LocksOf : Type 0
  LocksOf = K → ℕ → Option String

  abbrev pub put : ℕ → K → String → ℕ → LocksOf → LocksOf
  put now k v ttl s =
      λ j t. if same j k then (if ltb t (now + ttl * 1000000) then some v else none) else s j t

  abbrev pub set_nx_at : Option String → ℕ → K → String → ℕ → LocksOf → LocksOf × Bool
  set_nx_at none now k v ttl s = (put now k v ttl s, true)
  set_nx_at (some w) now k v ttl s = (s, false)

  abbrev pub expire_at : Option String → ℕ → K → ℕ → LocksOf → LocksOf
  expire_at none now k ttl s = s
  expire_at (some v) now k ttl s = put now k v ttl s

  abbrev pub lock_store : LockStore same
  lock_store = record {
    Store = LocksOf;
    get = λ now k s. s k now;
    set_nx = λ now k v ttl s. set_nx_at (s k now) now k v ttl s;
    expire = λ now k ttl s. expire_at (s k now) now k ttl s;
    delete = λ k s. λ j t. if same j k then none else s j t;
    set_nx_free = λ now k v ttl s h. rw h refl;
    set_nx_held = λ now k v w ttl s h. rw h refl;
    get-set_nx = λ now t k j v ttl s h le. rw h refl;
    get-expire = λ now t k j v ttl s h le. rw h refl;
    get-delete = λ t k j s. refl;
  }

abbrev pub locks : LockStore ◌==◌
locks = lock_store ◌==◌

abbrev pub Counters : Type 0
Counters = WindowKey → ℕ → ℕ

abbrev pub same_key : WindowKey → WindowKey → Bool
same_key j k = text_eq j.tenant k.tenant && j.bucket == k.bucket

pub same_key_refl : (k : WindowKey) → same_key k k ≡ true
same_key_refl k = ground (arith, (text_eq_iff k.tenant k.tenant).1 refl, ==_refl k.bucket)

abbrev pub incr_at : ℕ → WindowKey → Counters → Counters × ℕ
incr_at now k s = (λ j t. if same_key j k then s j t + 1 else s j t, s k now + 1)

abbrev pub live_until : ℕ → WindowKey → ℕ → Counters → Counters
live_until now k ttl s =
    λ j t. if same_key j k then (if ltb t (now + ttl) then s k now else 0) else s j t

pub value-expire_fresh :
    (now t ttl : ℕ) (k : WindowKey) (s : Counters)
    → s k now ≡ 0
    → now ≤ t
    → t < now + ttl
    → live_until now k ttl (incr_at now k s).0 k t ≡ 1
value-expire_fresh now t ttl k s h le lt = ground (arith, same_key_refl k)

pub value-incr :
    (now t n : ℕ) (k : WindowKey) (s : Counters)
    → now ≤ t
    → s k t ≡ suc n
    → (incr_at now k s).0 k t ≡ suc (suc n)
value-incr now t n k s le h = ground (arith, same_key_refl k)

abbrev pub counters : CounterStore
counters = record {
  Store = Counters;
  value = λ t k s. s k t;
  incr = incr_at;
  expire = live_until;
  incr_counts = λ now k s. refl;
  value-expire_fresh = value-expire_fresh;
  value-incr = value-incr;
}

abbrev pub settings : Settings ℕ
settings = record {
  queue_provider = codes "sqs";
  gcp_project = "demo";
  storage_provider = codes "s3";
  s3_bucket = "media";
  gcs_bucket = "media";
  vision_provider = codes "local";
  llm_provider = codes "rules";
  openai_api_key = "";
  openai_model = "gpt-4o-mini";
  policy_version = "policy-v1";
  pipeline_version = "pipeline-v1";
  auto_allow = 8500;
  auto_block = 9000;
  nsfw_block = 8500;
  nsfw_flag = 4500;
  violence_block = 8000;
  violence_flag = 4000;
  max_upload_bytes = 10485760;
}

abbrev pub vision : VisionSignals ℕ
vision = record {
  labels = "tree" ∷ [];
  nsfw_score = 100;
  violence_score = 100;
  ocr_text = [];
  provider = "local";
  model_version = "v1";
  raw = [];
}

abbrev pub llm : LlmSignals ℕ
llm = record {
  label = "ALLOW";
  score = 9500;
  rationale = "clean";
  provider = "rules";
  model_version = "v1";
  raw = [];
}

-- a clean picture, that the classifier suggests `suggested` for
abbrev pub services_of : Decision → Services ℕ
services_of suggested = record {
  fetch_object = λ key. ok (1 ∷ 2 ∷ [], "image/png");
  analyze = λ bytes caption. ok vision;
  classify = λ caption v. ok (suggested, llm);
  latency_ms = 12;
  foreign_key_text = codes "foreign key";
  model_check_text = codes "confidence";
}

-- object storage is down
abbrev pub broken : Services ℕ
broken = record (services_of allow) { fetch_object = λ key. err (other_error (codes "timeout")) }

abbrev pub message : JobMessage
message = record {
  job_id = 7;
  content_id = 3;
  content_hash = "abc";
  object_key = "content/ab/abc/3.png";
  caption = codes "a tree";
}

abbrev pub item : ContentItem
item = record {
  id = 3;
  content_hash = "abc";
  object_key = "content/ab/abc/3.png";
  bucket = "media";
  caption = codes "a tree";
  content_type = "image/png";
  byte_size = 2;
  source = "api";
}

abbrev pub job : Job
job = record {
  id = 7;
  content_id = 3;
  content_hash = "abc";
  status = queued;
  attempts = 0;
  max_attempts = 3;
  last_error = none;
  enqueued_at = 5;
  started_at = none;
  finished_at = none;
}

-- one queued job
abbrev pub db : Db ℕ
db = record (empty_db ℕ) { content_items = item ∷ []; jobs = job ∷ []; next_id = 10 }
