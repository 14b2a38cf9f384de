-- ===== src/Ingest/Admission.antt =====
-- What a request has passed before the ingest service sees it.
use multimodal_content_moder.Common.{
  ℕ, ◌≡◌, str_eq, true, false, Bool-cases, inl, inr, Option, List,
}
use multimodal_content_moder.Common.Exec.{ok, err, Result-cases}
use multimodal_content_moder.Envelope.{Text}
use multimodal_content_moder.Review.Locks.{LockStore}
use multimodal_content_moder.RateLimit.{RateLimitDecision, CounterStore, check_tenant_rate_limit}
use multimodal_content_moder.Ingest.Queue.{ApiSettings}
use multimodal_content_moder.Ingest.Fetch.{Network, fetch_image_bytes}
use multimodal_content_moder.Ingest.Fetch.Safety.{IsFetched, fetch-IsFetched}
use multimodal_content_moder.Ingest.Service.{IngestResponse, Upload, http}
use multimodal_content_moder.Ingest.Accept.{IngestState, accept_image}
use multimodal_content_moder.Ingest.Routes.{
  LimitSettings, RequestContext, ApiState, rate_limit, tenant_of, ingest_content,
  ingest_content_from_url,
}
use multimodal_content_moder.Common.{arith}

module _ (F : Type 0) (redis : LockStore str_eq) (counters : CounterStore) (settings : ApiSettings)
    (limits : LimitSettings) (context : RequestContext (IngestState F redis)) where
  -- the limiter's answer to a request of the tenant
  abbrev pub limiter : Option Text → ApiState F redis counters → RateLimitDecision × counters.Store
  limiter x_tenant_id s =
      check_tenant_rate_limit counters (tenant_of F redis counters limits x_tenant_id)
        limits.rate_limit_requests limits.rate_limit_window_seconds context.now_seconds s.counts

  -- A request over the limit of its tenant ends with 429, whether it brings an image or a URL, and
  -- changes nothing but the tenant's counter: nothing is fetched, stored or queued.
  pub limited :
      (net : Network) (x_tenant_id : Option Text) (image_url : Text) (u : Upload)
      (s : ApiState F redis counters)
      → (limiter x_tenant_id s).0.allowed ≡ false
      → let refusal =
          http 429 (context.limit_detail (tenant_of F redis counters limits x_tenant_id)) in
        let counted : ApiState F redis counters = record s { counts = (limiter x_tenant_id s).1 } in
        (ingest_content F redis counters settings limits context x_tenant_id u s
          ≡ (err refusal, counted))
        × (ingest_content_from_url F redis counters settings limits context net x_tenant_id
              image_url u s
            ≡ (err refusal, counted))
  unfolding ingest_content ingest_content_from_url rate_limit
  limited net x_tenant_id image_url u s over = (ground arith, ground arith)

  -- An image from a URL that is ingested came within the limit of its tenant; it holds the bytes of
  -- the response to a request to this URL, which had passed the checks, as had the addresses that its
  -- host resolved to, of which there was one at least; and it is what the ingest service accepted.
  pub from_url-IsFetched :
      (net : Network) (x_tenant_id : Option Text) (image_url : Text) (u : Upload)
      (s : ApiState F redis counters) (r : IngestResponse)
      → (ingest_content_from_url F redis counters settings limits context net x_tenant_id image_url
          u s).0
        ≡ ok r
      → ((limiter x_tenant_id s).0.allowed ≡ true)
        × (body : List ℕ) × (content_type : Text) × IsFetched net image_url
            settings.max_upload_bytes body content_type
        × ((accept_image F redis settings context.meanwhile context.now
              (record u {
                body = body;
                content_type = context.to_text content_type;
                tenant_id = context.to_text (tenant_of F redis counters limits x_tenant_id);
                source = "url";
              })
              s.ingest).0
            ≡ ok r)
  unfolding ingest_content_from_url rate_limit
  from_url-IsFetched net x_tenant_id image_url u s r h =
      elim (Bool-cases (limiter x_tenant_id s).0.allowed) [
        | inr over ↦ absurd (ground arith)
        | inl within ↦
            elim (Result-cases
              (fetch_image_bytes {S = Unit {0}} net image_url settings.max_upload_bytes tt).0) [
                | inr (e, bad) ↦ absurd (ground arith)
                | inl ((body, content_type), got) ↦ (
                  within,
                  body,
                  content_type,
                  fetch-IsFetched net image_url settings.max_upload_bytes tt body content_type got,
                  ground arith,
                )
              ]
      ]
