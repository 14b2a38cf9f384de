-- ===== src/Storage.antt =====
-- apps/api/app/storage.py and apps/worker/worker/object_store.py: where the API puts the bytes of an
-- upload, and where the worker gets them. The clients of S3 and GCS, their endpoints and credentials,
-- are an argument that both sides share.
pub mod RoundTrip
use multimodal_content_moder.Common.{
  ℕ, max, ◌≡◌, String, str_eq, Bool, false, ◌&&◌, Option, none, some, List, [], ◌∷◌, if◌then◌else◌,
  codes, text_eq, lower,
}
use multimodal_content_moder.Common.Exec.{Result, ok, err, Exec, pure, lift, ◌>>=◌, ◌>>◌}
use multimodal_content_moder.Envelope.{Text}
use multimodal_content_moder.Ingest.Queue.{ApiSettings}
use multimodal_content_moder.Worker.Pipeline.{Settings}

-- an int of Python
pub data ℤ : Type 0 where
  pos : ℕ → ℤ
  negsuc : ℕ → ℤ

-- a bucket of one of the two services
pub data Location : Type 0 where
  s3 : String → Location
  gcs : String → Location

unfoldable pub same_location : Location → Location → Bool
same_location (s3 a) (s3 b) = str_eq a b
same_location (gcs a) (gcs b) = str_eq a b
same_location (s3 a) (gcs b) = false
same_location (gcs a) (s3 b) = false

-- The two cloud services: reads are consistent with the writes before them, and a write changes no
-- other object, whether it succeeds or fails.
pub record CloudStore : Type 1 where
  pub Cloud : Type 0
  pub put : Location → String → List ℕ → String → Exec String Cloud (Unit {0})
  -- the body and the content type, where there is one
  pub get : Location → String → Cloud → Result Text (List ℕ × Option String)
  pub presign : Location → String → ℕ → String
  pub get-put :
      (at : Location) (key : String) (body : List ℕ) (content_type : String) (c : Cloud)
      → (put at key body content_type c).0 ≡ ok tt
      → get at key (put at key body content_type c).1 ≡ ok (body, some content_type)
  pub get-put_other :
      (at at' : Location) (key key' : String) (body : List ℕ) (content_type : String) (c : Cloud)
      → (same_location at at' && str_eq key key') ≡ false
      → get at' key' (put at key body content_type c).1 ≡ get at' key' c

-- the bucket that the storage of `get_storage` works on: of `GcsObjectStorage` or of
-- `S3ObjectStorage`
unfoldable pub api_location : ApiSettings → Location
api_location settings =
    let provider = lower settings.storage_provider in
    if text_eq provider (codes "gcs") then gcs settings.gcs_bucket else s3 settings.s3_bucket

-- the branch of the worker's `fetch_object`: the bucket of `_fetch_gcs` or of `_fetch_s3`
unfoldable pub worker_location : {F : Type 0} → Settings F → Location
worker_location settings =
    let provider = lower settings.storage_provider in
    if text_eq provider (codes "gcs") then gcs settings.gcs_bucket else s3 settings.s3_bucket

-- `... or "application/octet-stream"`
unfoldable pub or_octet_stream : Option String → String
or_octet_stream none = "application/octet-stream"
or_octet_stream (some content_type) =
    if str_eq content_type "" then "application/octet-stream" else content_type

-- `max(1, int(ttl))`
unfoldable pub at_least_one : ℤ → ℕ
at_least_one (pos n) = max 1 n
at_least_one (negsuc n) = 1

-- `expires_in if expires_in is not None else settings.signed_url_ttl_seconds`
unfoldable pub ttl_of : ℤ → Option ℤ → ℤ
ttl_of signed_url_ttl_seconds none = signed_url_ttl_seconds
ttl_of signed_url_ttl_seconds (some expires_in) = expires_in

module _ (store : CloudStore) where
  open store use {Cloud}

  -- `put_object`, with `S3ObjectStorage.put` and `GcsObjectStorage.put`
  unfoldable pub put_object : ApiSettings → String → List ℕ → String → Exec String Cloud String
  unfolding api_location
  put_object settings key body content_type = do
    store.put (api_location settings) key body content_type
    pure key

  -- `signed_url`; the second argument is `signed_url_ttl_seconds`
  unfoldable pub signed_url : ApiSettings → ℤ → String → Option ℤ → String
  unfolding api_location at_least_one ttl_of
  signed_url settings signed_url_ttl_seconds key expires_in =
      store.presign (api_location settings) key
        (at_least_one (ttl_of signed_url_ttl_seconds expires_in))

  abbrev pub with_type : Result Text (List ℕ × Option String) → Result Text (List ℕ × String)
  with_type (err exc) = err exc
  with_type (ok (body, content_type)) = ok (body, or_octet_stream content_type)

  -- `fetch_object`, with `_fetch_s3` and `_fetch_gcs`
  unfoldable pub fetch_object :
      {F : Type 0} → Settings F → String → Cloud → Result Text (List ℕ × String)
  unfolding worker_location or_octet_stream
  fetch_object settings object_key c = with_type (store.get (worker_location settings) object_key c)

  -- uploads, one after the other, those that fail too
  pub record Put : Type 0 where
    pub key : String
    pub body : List ℕ
    pub content_type : String

  unfoldable pub put_all : ApiSettings → List Put → Cloud → Cloud
  put_all settings [] c = c
  put_all settings (p ∷ puts) c =
      put_all settings puts (put_object settings p.key p.body p.content_type c).1
