-- ===== src/Lifecycle/Readiness.antt =====
-- What `/ready` answers while the API runs and after it has stopped.
use multimodal_content_moder.Common.{
  ℕ, suc, ◌≡◌, refl, ap, ◌↔◌, Bool, true, false, Bool-cases, inl, inr, Option, none, some, arith,
  codes, ◌&&◌, not,
}
use multimodal_content_moder.Common.Exec.{Result, ok, err, continue, ◌>>◌, Result-cases}
use multimodal_content_moder.Envelope.{Text}
use multimodal_content_moder.Telemetry.{TracingOptions}
use multimodal_content_moder.Lifecycle.{
  Slot, opened, init_slot, closed_slot, close_slot, Backends, Checks, not_ready, AppState,
  instrument, set_instrumented, put_pool, put_client, trace, init_pool, init_redis, close_pool,
  startup, shutdown, checked, pong, ready,
}

module _ {A : Type 0} where
  -- what is open is what the global holds
  abbrev pub HasNoLeak : Slot A → Type 0
  HasNoLeak s = s.live ≡ elim s.value [ none ↦ 0 | some a ↦ 1 ]

  init_slot-HasNoLeak :
      (r : Result Text A) (v : Option A) (n : ℕ)
      → HasNoLeak (record { value = v; live = n })
      → HasNoLeak (opened r v n).1
  init_slot-HasNoLeak r (some a) n h = h
  init_slot-HasNoLeak (err e) none n h = h
  init_slot-HasNoLeak (ok a) none n h = ap suc h

  init_slot_value :
      (r : Result Text A) (v : Option A) (n : ℕ)
      → (opened r v n).0 ≡ ok tt
      → (a : A) × ((opened r v n).1.value ≡ some a)
  init_slot_value r (some a) n h = (a, refl)
  init_slot_value (err e) none n h = absurd (ground (arith, h))
  init_slot_value (ok a) none n h = (a, refl)

  abbrev IsClosed : Slot A → Type 0
  IsClosed s = (s.value ≡ none) × (s.live ≡ 0)

  close_slot-IsClosed :
      (close : A → Result Text (Unit {0})) (v : Option A) (n : ℕ)
      → HasNoLeak (record { value = v; live = n })
      → (closed_slot close v n).0 ≡ ok tt
      → IsClosed (closed_slot close v n).1
  close_slot-IsClosed close none n leak h = (refl, leak)
  close_slot-IsClosed close (some a) n leak h = elim (Result-cases (close a)) [
    | inl (u, c) ↦ rw c (refl, omega (arith, leak))
    | inr (e, c) ↦ absurd (ground (arith, h, c))
  ]

abbrev pub all_ok : Checks
all_ok = record { postgres = some "ok"; redis = some "ok" }

checked_iff :
    (p : Result Text (Unit {0})) (c : Result Text Bool)
    → (checked p (pong c) ≡ ok all_ok) ↔ ((p ≡ ok tt) × (c ≡ ok true))
checked_iff (err e) c = (ground arith, ground arith)
checked_iff (ok u) (err e) = (ground arith, ground arith)
checked_iff (ok u) (ok true) = (λ h. (refl, refl), λ h. refl)
checked_iff (ok u) (ok false) = (ground arith, ground arith)

module _ {P C : Type 0} where
  abbrev pub HasNoLeaks : AppState P C → Type 0
  HasNoLeaks s = HasNoLeak s.pool × HasNoLeak s.client

  -- both globals are set
  abbrev IsUp : AppState P C → Type 0
  IsUp s =
      HasNoLeaks s × ((p : P) × (s.pool.value ≡ some p)) × ((c : C) × (s.client.value ≡ some c))

  after_client :
      (b : Backends P C) (s : AppState P C)
      → HasNoLeaks s
      → (p : P) × (s.pool.value ≡ some p)
      → (init_redis b s).0 ≡ ok tt
      → IsUp (init_redis b s).1
  unfolding init_slot
  after_client b s (lp, lc) there h = (
    (lp, init_slot-HasNoLeak b.from_url s.client.value s.client.live lc),
    there,
    init_slot_value b.from_url s.client.value s.client.live h,
  )

  after_pool :
      (b : Backends P C) (s : AppState P C) (r : Result Text (Unit {0}) × Slot P)
      → HasNoLeak s.client
      → HasNoLeak r.1
      → (r.0 ≡ ok tt → (p : P) × (r.1.value ≡ some p))
      → (continue (λ _. init_redis b) (put_pool s r)).0 ≡ ok tt
      → IsUp (continue (λ _. init_redis b) (put_pool s r)).1
  after_pool b s (err e, slot) lc lp there h = absurd (ground (arith, h))
  after_pool b s (ok u, slot) lc lp there h =
      after_client b (record s { pool = slot }) (lp, lc) (there refl) h

  after_instrument :
      (b : Backends P C) (r : Result Text (Unit {0}) × AppState P C)
      → HasNoLeaks r.1
      → (continue (λ _. init_pool b >> init_redis b) r).0 ≡ ok tt
      → IsUp (continue (λ _. init_pool b >> init_redis b) r).1
  unfolding init_slot
  after_instrument b (err e, s) leaks h = absurd (ground (arith, h))
  after_instrument b (ok u, s) (lp, lc) h =
      after_pool b s (init_slot b.create_pool s.pool) lc
        (init_slot-HasNoLeak b.create_pool s.pool.value s.pool.live lp)
        (init_slot_value b.create_pool s.pool.value s.pool.live) h

  set_instrumented-HasNoLeaks :
      (s : AppState P C) (r : Result Text (Unit {0}))
      → HasNoLeaks s
      → HasNoLeaks (set_instrumented s r).1
  set_instrumented-HasNoLeaks s (err e) leaks = leaks
  set_instrumented-HasNoLeaks s (ok u) leaks = leaks

  instrument-HasNoLeaks :
      (o : TracingOptions) (b : Backends P C) (s : AppState P C)
      → HasNoLeaks s
      → HasNoLeaks (instrument o b s).1
  unfolding instrument
  instrument-HasNoLeaks o b s leaks = elim (Bool-cases (o.enabled && not s.instrumented)) [
    | inl on ↦ rw (on, instrument) (set_instrumented-HasNoLeaks s b.instrument_app leaks)
    | inr off ↦ rw (off, instrument) leaks
  ]

  startup-IsUp :
      (o : TracingOptions) (b : Backends P C) (s : AppState P C)
      → HasNoLeaks s
      → (startup o b s).0 ≡ ok tt
      → IsUp (startup o b s).1
  unfolding startup
  startup-IsUp o b s leaks h =
      after_instrument b (instrument o b (trace o s)) (instrument-HasNoLeaks o b (trace o s) leaks)
        h

  -- both globals are None and nothing is open
  abbrev IsDown : AppState P C → Type 0
  IsDown s = IsClosed s.pool × IsClosed s.client

  after_close :
      (b : Backends P C) (s : AppState P C) (r : Result Text (Unit {0}) × Slot C)
      → HasNoLeak s.pool
      → (r.0 ≡ ok tt → IsClosed r.1)
      → (continue (λ _. close_pool b) (put_client s r)).0 ≡ ok tt
      → IsDown (continue (λ _. close_pool b) (put_client s r)).1
  unfolding close_slot
  after_close b s (err e, slot) lp gone h = absurd (ground (arith, h))
  after_close b s (ok u, slot) lp gone h =
      (close_slot-IsClosed b.close s.pool.value s.pool.live lp h, gone refl)

  shutdown-IsDown :
      (b : Backends P C) (s : AppState P C)
      → HasNoLeaks s
      → (shutdown b s).0 ≡ ok tt
      → IsDown (shutdown b s).1
  unfolding shutdown close_slot
  shutdown-IsDown b s (lp, lc) h =
      after_close b s (close_slot b.aclose s.client) lp
        (close_slot-IsClosed b.aclose s.client.value s.client.live lc) h

  -- Where nothing was open that the globals do not hold, and a start of the API and then its stop
  -- return: in between `/ready` answers 200 exactly if Postgres answers the statement on the pool and
  -- Redis the ping of the client; afterwards it answers 503, and no pool and no client is open.
  pub lifespan_readiness :
      (o : TracingOptions) (at_start in_service at_stop later : Backends P C) (s : AppState P C)
      → HasNoLeaks s
      → (startup o at_start s).0 ≡ ok tt
      → (shutdown at_stop (startup o at_start s).1).0 ≡ ok tt
      → let t = (startup o at_start s).1 in
        let u = (shutdown at_stop t).1 in
        ((p : P) × (c : C) × (t.pool.value ≡ some p)
          × (t.client.value ≡ some c)
          × ((ready in_service t ≡ ok all_ok)
              ↔ ((in_service.select_one p ≡ ok tt) × (in_service.ping c ≡ ok true))))
        × (ready later u
            ≡ err (
                not_ready
                  (record { postgres = some "error"; redis = none })
                  (codes "DB pool not initialized")))
        × (u.pool.live ≡ 0)
        × (u.client.live ≡ 0)
  unfolding ready
  lifespan_readiness o at_start in_service at_stop later s leaks starts stops =
      let t = (startup o at_start s).1 in
      let (kept, (p, pool_there), (c, client_there)) = startup-IsUp o at_start s leaks starts in
      let ((no_pool, pools), (no_client, clients)) = shutdown-IsDown at_stop t kept stops in
      (
        (
          p,
          c,
          pool_there,
          client_there,
          rw (pool_there, client_there) (checked_iff (in_service.select_one p) (in_service.ping c)),
        ),
        rw no_pool refl,
        pools,
        clients,
      )
