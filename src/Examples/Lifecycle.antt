-- ===== src/Examples/Lifecycle.antt =====
-- The API starts with both backends up, runs while Redis is away, and stops.
use multimodal_content_moder.Common.{ℕ, ◌≡◌, ◌↔◌, refl, true, false, none, some, codes}
use multimodal_content_moder.Common.Exec.{ok, err}
use multimodal_content_moder.Telemetry.{TracingOptions}
use multimodal_content_moder.Lifecycle.{
  Backends, AppState, startup, shutdown, instrument, init_slot, close_slot, ready, not_ready,
}
use multimodal_content_moder.Lifecycle.Readiness.{all_ok, lifespan_readiness}

abbrev options : TracingOptions
options = record {
  service_name = "api";
  enabled = true;
  otlp_endpoint = codes "";
  console_exporter = false;
}

abbrev up : Backends ℕ ℕ
up = record {
  instrument_app = ok tt;
  create_pool = ok 5;
  close = λ p. ok tt;
  select_one = λ p. ok tt;
  from_url = ok 6;
  aclose = λ c. ok tt;
  ping = λ c. ok true;
}

abbrev no_redis : Backends ℕ ℕ
no_redis = record up { ping = λ c. err (codes "timeout") }

abbrev fresh : AppState ℕ ℕ
fresh = record {
  tracing = record { initialized = false; provider = none };
  instrumented = false;
  pool = record { value = none; live = 0 };
  client = record { value = none; live = 0 };
}

abbrev running : AppState ℕ ℕ
running = (startup options up fresh).1

abbrev stopped : AppState ℕ ℕ
stopped = (shutdown up running).1

starts : (startup options up fresh).0 ≡ ok tt
unfolding startup instrument init_slot
starts = refl

stops : (shutdown up running).0 ≡ ok tt
unfolding startup instrument init_slot shutdown close_slot
stops = refl

lifespan_readiness_example :
    ((p : ℕ) × (c : ℕ) × (running.pool.value ≡ some p)
      × (running.client.value ≡ some c)
      × ((ready no_redis running ≡ ok all_ok)
          ↔ ((no_redis.select_one p ≡ ok tt) × (no_redis.ping c ≡ ok true))))
    × (ready up stopped
        ≡ err (
            not_ready
              (record { postgres = some "error"; redis = none })
              (codes "DB pool not initialized")))
    × (stopped.pool.live ≡ 0)
    × (stopped.client.live ≡ 0)
lifespan_readiness_example =
    lifespan_readiness options up no_redis up up fresh (refl, refl) starts stops
