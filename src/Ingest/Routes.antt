-- ===== src/Ingest/Routes.antt =====
-- apps/api/app/routes/ingest.py: the two ingest requests, behind the parsing of the request. The
-- headers of the answer and the tracing spans are left out. The limiter reads the clock in seconds.
use multimodal_content_moder.Common.{ℕ, String, str_eq, Option, if◌then◌else◌, codes, contains}
use multimodal_content_moder.Common.Exec.{Result, ok, err, Exec, lift, ◌>>=◌, ◌>>◌}
use multimodal_content_moder.Envelope.{Text}
use multimodal_content_moder.Http.{HttpError}
use multimodal_content_moder.Review.Locks.{LockStore}
use multimodal_content_moder.RateLimit.{normalize_tenant_id, CounterStore, check_tenant_rate_limit}
use multimodal_content_moder.Ingest.Queue.{ApiSettings}
use multimodal_content_moder.Ingest.Fetch.{
  FetchError, unsafe_url, fetch_failed, uncaught, Network, fetch_image_bytes,
}
use multimodal_content_moder.Ingest.Service.{IngestResponse, Upload, http}
use multimodal_content_moder.Ingest.Accept.{IngestState, accept_image}

-- the settings of the limiter
pub record LimitSettings : Type 0 where
  pub rate_limit_requests : ℕ
  pub rate_limit_window_seconds : ℕ
  pub default_tenant_id : Text

-- what a request gets from outside: the clocks, what others do meanwhile, the text of the limiter's
-- refusal, and of a list of code points
pub record RequestContext (State : Type 0) : Type 0 where
  pub now_seconds : ℕ
  pub now : ℕ
  pub meanwhile : ℕ → State → State
  pub limit_detail : Text → String
  pub to_text : Text → String

-- the exceptions of `fetch_image_bytes`, as `ingest_content_from_url` raises them
unfoldable pub fetch_response : FetchError → HttpError
fetch_response (unsafe_url e) = http 400 e
fetch_response (fetch_failed e) =
    http (if contains (codes e) (codes "exceeds max") then 413 else 502) e
fetch_response (uncaught e) = http 500 "Internal Server Error"

abbrev pub fetched : {A : Type 0} → Result FetchError A → Result HttpError A
fetched (ok a) = ok a
fetched (err e) = err (fetch_response e)

module _ (F : Type 0) (redis : LockStore str_eq) (counters : CounterStore) where
  pub record ApiState : Type 0 where
    pub ingest : IngestState F redis
    pub counts : counters.Store

  -- `accept_image` on its part of the state
  abbrev pub on_ingest :
      ApiState
      → Result HttpError IngestResponse × IngestState F redis
      → Result HttpError IngestResponse × ApiState
  on_ingest s (r, ingest) = (r, record s { ingest = ingest })

  unfoldable pub rate_limit :
      LimitSettings
      → RequestContext (IngestState F redis)
      → Text
      → Exec HttpError ApiState (Unit {0})
  rate_limit limits context tenant_id s =
      let (decision, counts) =
        check_tenant_rate_limit counters tenant_id limits.rate_limit_requests
          limits.rate_limit_window_seconds context.now_seconds s.counts in
      let s' : ApiState = record s { counts = counts } in
      if decision.allowed
      then (ok tt, s')
      else (err (http 429 (context.limit_detail tenant_id)), s')

  abbrev pub tenant_of : LimitSettings → Option Text → Text
  tenant_of limits x_tenant_id = normalize_tenant_id x_tenant_id limits.default_tenant_id

  -- `u` is the upload as the form carries it
  unfoldable pub ingest_content :
      ApiSettings
      → LimitSettings
      → RequestContext (IngestState F redis)
      → Option Text
      → Upload
      → Exec HttpError ApiState IngestResponse
  ingest_content settings limits context x_tenant_id u = do
    let tenant_id = tenant_of limits x_tenant_id
    rate_limit limits context tenant_id
    λ s. on_ingest s (
        accept_image F redis settings context.meanwhile context.now
          (record u { tenant_id = context.to_text tenant_id; source = "api" }) s.ingest)

  -- `u` has the caption of the request; its body and type are what was fetched
  unfoldable pub ingest_content_from_url :
      ApiSettings
      → LimitSettings
      → RequestContext (IngestState F redis)
      → Network
      → Option Text
      → Text
      → Upload
      → Exec HttpError ApiState IngestResponse
  ingest_content_from_url settings limits context net x_tenant_id image_url u = do
    let tenant_id = tenant_of limits x_tenant_id
    rate_limit limits context tenant_id
    (body, content_type) ←
        lift (fetched (fetch_image_bytes net image_url settings.max_upload_bytes tt).0)
    λ s. on_ingest s (
        accept_image F redis settings context.meanwhile context.now
          (record u {
            body = body;
            content_type = context.to_text content_type;
            tenant_id = context.to_text tenant_id;
            source = "url";
          })
          s.ingest)
