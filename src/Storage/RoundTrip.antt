-- ===== src/Storage/RoundTrip.antt =====
-- The worker reads what the API stored.
use multimodal_content_moder.Common.{◌≡◌, true, false, lower, codes, text_eq}
use multimodal_content_moder.Ingest.Queue.{ApiSettings}
use multimodal_content_moder.Ingest.Service.{bucket_of}
use multimodal_content_moder.Worker.Pipeline.{Settings}
use multimodal_content_moder.Storage.{Location, s3, gcs}

module _ (api : ApiSettings) where
  -- the location is of the service and the bucket that a row of `content_items` records
  abbrev pub IsRecorded : Location → Type 0
  IsRecorded (s3 bucket) =
      (bucket ≡ bucket_of api)
      × (bucket ≡ api.s3_bucket)
      × (text_eq (lower api.storage_provider) (codes "gcs") ≡ false)
  IsRecorded (gcs bucket) =
      (bucket ≡ bucket_of api)
      × (bucket ≡ api.gcs_bucket)
      × (text_eq (lower api.storage_provider) (codes "gcs") ≡ true)

module _ {F : Type 0} (api : ApiSettings) (worker : Settings F) where
  -- the two sides are configured for the same provider, up to its case, and the same buckets
  abbrev pub IsSameStorage : Type 0
  IsSameStorage =
      (lower api.storage_provider ≡ lower worker.storage_provider)
      × (api.s3_bucket ≡ worker.s3_bucket)
      × (api.gcs_bucket ≡ worker.gcs_bucket)
