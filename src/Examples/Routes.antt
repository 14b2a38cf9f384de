-- ===== src/Examples/Routes.antt =====
-- Requests to the ingest routes: one over the limit, and one that brings a URL.
use multimodal_content_moder.Common.{
  ℕ, ◌≡◌, refl, true, false, none, List, [], ◌∷◌, codes, text_eq, if◌then◌else◌, any, find_where,
  select_where, strip, lstrip, is_space, lower, starts_with,
}
use multimodal_content_moder.Common.Exec.{ok}
use multimodal_content_moder.Envelope.{Text}
use multimodal_content_moder.Review.Locks.{acquire_ingest_lock}
use multimodal_content_moder.RateLimit.{
  normalize_tenant_id, evaluate_fixed_window, check_tenant_rate_limit,
}
use multimodal_content_moder.Ingest.Queue.{enqueue_job}
use multimodal_content_moder.Ingest.Service.{
  IngestResponse, Upload, check_upload, digest_of, allowed_types, split_commas,
}
use multimodal_content_moder.Ingest.Accept.{
  accept_image, ingest_digest, store_image, persist_job, enqueue_or_fail, find_ingested,
  find_by_hash, hash_taken, is_refused, accepted,
}
use multimodal_content_moder.Ingest.Fetch.{
  is_blocked_ip, rstrip_dots, ends_with, is_blocked_host, check_url, port_of, read_chunks,
  sniff_content_type, receive_image, check_addresses, fetch_image_bytes,
}
use multimodal_content_moder.Ingest.Fetch.Safety.{IsFetched}
use multimodal_content_moder.Ingest.Routes.{
  LimitSettings, RequestContext, ApiState, rate_limit, tenant_of, ingest_content_from_url,
}
use multimodal_content_moder.Ingest.Admission.{limiter, from_url-IsFetched}
use multimodal_content_moder.Examples.Instances.{counters}
use multimodal_content_moder.Examples.Ingest.{
  settings, text_locks, State, upload, idle, empty_state,
}
use multimodal_content_moder.Examples.Fetch.{net}

abbrev limits : LimitSettings
limits = record {
  rate_limit_requests = 2;
  rate_limit_window_seconds = 60;
  default_tenant_id = codes "default";
}

abbrev context : RequestContext State
context = record {
  now_seconds = 125;
  now = 100;
  meanwhile = idle;
  limit_detail = λ tenant. "Rate limit exceeded";
  to_text = λ text. if text_eq text (codes "image/jpeg") then "image/jpeg" else "default";
}

abbrev quiet : ApiState ℕ text_locks counters
quiet = record { ingest = empty_state; counts = λ key t. 0 }

abbrev busy : ApiState ℕ text_locks counters
busy = record { ingest = empty_state; counts = λ key t. 2 }

abbrev url : Text
url = codes "https://example.org/a.jpg"

over_limit : (limiter ℕ text_locks counters settings limits context none busy).0.allowed ≡ false
unfolding check_tenant_rate_limit evaluate_fixed_window
over_limit = refl

-- the upload that the URL stands for
abbrev fetched_upload : Upload
fetched_upload = record upload {
  body = 255 ∷ 216 ∷ 1 ∷ [];
  content_type = "image/jpeg";
  tenant_id = "default";
  source = "url";
}

abbrev answer : IngestResponse
answer = accepted fetched_upload (digest_of settings fetched_upload)

ingests :
    (ingest_content_from_url ℕ text_locks counters settings limits context net none url upload
      quiet).0
    ≡ ok answer
unfolding ingest_content_from_url rate_limit check_tenant_rate_limit evaluate_fixed_window
    fetch_image_bytes check_url check_addresses receive_image read_chunks sniff_content_type port_of
    is_blocked_host rstrip_dots ends_with is_blocked_ip any text_eq codes lower strip lstrip
    is_space starts_with accept_image ingest_digest store_image persist_job enqueue_or_fail
    check_upload allowed_types split_commas select_where find_ingested find_by_hash find_where
    hash_taken is_refused acquire_ingest_lock enqueue_job normalize_tenant_id
ingests = refl

from_url-IsFetched_example :
    ((limiter ℕ text_locks counters settings limits context none quiet).0.allowed ≡ true)
    × (body : List ℕ) × (content_type : Text) × IsFetched net url 100 body content_type
    × ((accept_image ℕ text_locks settings idle 100
          (record upload {
            body = body;
            content_type = context.to_text content_type;
            tenant_id = context.to_text (tenant_of ℕ text_locks counters limits none);
            source = "url";
          })
          empty_state).0
        ≡ ok answer)
from_url-IsFetched_example =
    from_url-IsFetched ℕ text_locks counters settings limits context net none url upload quiet
      answer ingests
