-- ===== src/Lifecycle.antt =====
-- apps/api/app/main.py, db.py and redis_client.py: the start and the stop of the API, its two global
-- connections, and the probes. The calls of asyncpg, of the Redis client and of the instrumentation
-- are arguments; an exception is its text.
pub mod Readiness
use multimodal_content_moder.Common.{
  ℕ, suc, ◌-◌, ◌==◌, String, Bool, true, false, ◌&&◌, not, Option, none, some, List, [], ◌∷◌,
  length, take, if◌then◌else◌, codes, strip,
}
use multimodal_content_moder.Common.Exec.{Result, ok, err, Exec, execute, continue, ◌>>=◌, ◌>>◌}
use multimodal_content_moder.Envelope.{Text}
use multimodal_content_moder.Telemetry.{Tracing, TracingOptions, setup_tracing}

-- A global that is None until it is set up (`_pool`, `_client`). `live` counts what the process has
-- made with it and not closed.
pub record Slot (A : Type 0) : Type 0 where
  pub value : Option A
  pub live : ℕ

module _ {A : Type 0} where
  abbrev pub opened : Result Text A → Option A → ℕ → Result Text (Unit {0}) × Slot A
  opened r (some a) n = (ok tt, record { value = some a; live = n })
  opened (err e) none n = (err e, record { value = none; live = n })
  opened (ok a) none n = (ok tt, record { value = some a; live = suc n })

  -- `init_pool` and `init_redis`
  unfoldable pub init_slot : Result Text A → Slot A → Result Text (Unit {0}) × Slot A
  init_slot r s = opened r s.value s.live

  abbrev pub closed_with : Result Text (Unit {0}) → A → ℕ → Result Text (Unit {0}) × Slot A
  closed_with (err e) a n = (err e, record { value = some a; live = n })
  closed_with (ok _) a n = (ok tt, record { value = none; live = n - 1 })

  abbrev pub closed_slot :
      (A → Result Text (Unit {0})) → Option A → ℕ → Result Text (Unit {0}) × Slot A
  closed_slot close none n = (ok tt, record { value = none; live = n })
  closed_slot close (some a) n = closed_with (close a) a n

  -- `close_pool` and `close_redis`
  unfoldable pub close_slot :
      (A → Result Text (Unit {0})) → Slot A → Result Text (Unit {0}) × Slot A
  close_slot close s = closed_slot close s.value s.live

  -- `pool` and `get_redis`: the value, or the RuntimeError
  abbrev pub value_or : Text → Option A → Result Text A
  value_or message none = err message
  value_or message (some a) = ok a

-- what the libraries answer at one time
pub record Backends (P C : Type 0) : Type 0 where
  pub instrument_app : Result Text (Unit {0})
  pub create_pool : Result Text P
  pub close : P → Result Text (Unit {0})
  pub select_one : P → Result Text (Unit {0})
  pub from_url : Result Text C
  pub aclose : C → Result Text (Unit {0})
  pub ping : C → Result Text Bool

pub record Checks : Type 0 where
  pub postgres : Option String
  pub redis : Option String

-- the answer of a probe that fails
pub record NotReady : Type 0 where
  pub status_code : ℕ
  pub status : String
  pub checks : Checks
  pub error : Text

abbrev pub not_ready : Checks → Text → NotReady
not_ready checks e = record {
  status_code = 503;
  status = "not_ready";
  checks = checks;
  error = take 200 e;
}

-- `if not pong: raise`
abbrev pub pong : Result Text Bool → Result Text (Unit {0})
pong (err e) = err e
pong (ok false) = err (codes "redis ping returned false")
pong (ok true) = ok tt

abbrev pub checked : Result Text (Unit {0}) → Result Text (Unit {0}) → Result NotReady Checks
checked (err e) redis = err (not_ready (record { postgres = some "error"; redis = none }) e)
checked (ok _) (err e) = err (not_ready (record { postgres = some "ok"; redis = some "error" }) e)
checked (ok _) (ok _) = ok (record { postgres = some "ok"; redis = some "ok" })

pub record AppState (P C : Type 0) : Type 0 where
  pub tracing : Tracing
  pub instrumented : Bool
  pub pool : Slot P
  pub client : Slot C

abbrev pub Step : Type 0 → Type 0 → Type 0
Step P C = Exec Text (AppState P C) (Unit {0})

module _ {P C : Type 0} where
  abbrev pub put_pool :
      AppState P C → Result Text (Unit {0}) × Slot P → Result Text (Unit {0}) × AppState P C
  put_pool s (r, slot) = (r, record s { pool = slot })

  abbrev pub put_client :
      AppState P C → Result Text (Unit {0}) × Slot C → Result Text (Unit {0}) × AppState P C
  put_client s (r, slot) = (r, record s { client = slot })

  abbrev pub set_instrumented :
      AppState P C → Result Text (Unit {0}) → Result Text (Unit {0}) × AppState P C
  set_instrumented s (err e) = (err e, s)
  set_instrumented s (ok _) = (ok tt, record s { instrumented = true })

  unfoldable pub instrument : TracingOptions → Backends P C → Step P C
  instrument o b s =
      if o.enabled && not s.instrumented then set_instrumented s b.instrument_app else (ok tt, s)

  abbrev pub trace : TracingOptions → AppState P C → AppState P C
  trace o s = record s { tracing = setup_tracing o s.tracing }

  abbrev pub init_pool : Backends P C → Step P C
  init_pool b s = put_pool s (init_slot b.create_pool s.pool)

  abbrev pub init_redis : Backends P C → Step P C
  init_redis b s = put_client s (init_slot b.from_url s.client)

  abbrev pub close_pool : Backends P C → Step P C
  close_pool b s = put_pool s (close_slot b.close s.pool)

  abbrev pub close_redis : Backends P C → Step P C
  close_redis b s = put_client s (close_slot b.aclose s.client)

  -- `lifespan` before and after its `yield`
  unfoldable pub startup : TracingOptions → Backends P C → Step P C
  startup o b = do execute (trace o); instrument o b; init_pool b; init_redis b

  unfoldable pub shutdown : Backends P C → Step P C
  shutdown b = do close_redis b; close_pool b

  abbrev pub then_select : Backends P C → Result Text P → Result Text (Unit {0})
  then_select b (err e) = err e
  then_select b (ok p) = b.select_one p

  abbrev pub then_ping : Backends P C → Result Text C → Result Text (Unit {0})
  then_ping b (err e) = err e
  then_ping b (ok c) = pong (b.ping c)

  unfoldable pub ready : Backends P C → AppState P C → Result NotReady Checks
  ready b s =
      checked (then_select b (value_or (codes "DB pool not initialized") s.pool.value))
        (then_ping b (value_or (codes "Redis not initialized") s.client.value))
