-- ===== src/Ingest/Service.antt =====
-- apps/api/app/ingest_service.py: the parts of `accept_image`: its checks, the key and the bucket of
-- an object, the answer to a repeated upload. Object storage, the queue's client, the two fresh
-- UUIDs and SHA-256 are in `Upload`.
use Prim.Native.String.{slice}
use multimodal_content_moder.Common.{
  ℕ, ◌==◌, ltb, String, str_eq, str_append, Bool, true, not, List, [], ◌∷◌, ◌++◌, map, length, any,
  select_where, if◌then◌else◌, codes, text_eq, lower, strip,
}
use multimodal_content_moder.Common.Exec.{Result, Exec, raise_if, ◌>>◌}
use multimodal_content_moder.Envelope.{Text}
use multimodal_content_moder.Schema.{Job, job_status_text}
use multimodal_content_moder.Http.{HttpError}
use multimodal_content_moder.Ingest.Hashing.{content_hash}
use multimodal_content_moder.Ingest.Queue.{ApiSettings, Publish}

pub record IngestResponse : Type 0 where
  pub job_id : ℕ
  pub content_id : ℕ
  pub content_hash : String
  pub status : String
  pub deduplicated : Bool
  pub message : String

-- what a request brings, and what it gets from outside
pub record Upload : Type 0 where
  pub body : List ℕ
  pub caption : Text
  pub content_type : String
  pub tenant_id : String
  pub source : String
  pub content_id : ℕ
  pub job_id : ℕ
  pub sha256_hex : List ℕ → String
  pub uuid_text : ℕ → String
  pub put_object : String → Result String String
  pub publish : Publish

unfoldable pub object_extension : String → String
object_extension content_type =
    if str_eq content_type "image/jpeg"
    then "jpg"
    else if str_eq content_type "image/png"
    then "png"
    else if str_eq content_type "image/webp"
    then "webp"
    else if str_eq content_type "image/gif"
    then "gif"
    else "bin"

-- `s.split(",")`: the part that is being read, and the rest
unfoldable pub split_commas : List ℕ → List ℕ → List (List ℕ)
split_commas part [] = part ∷ []
split_commas part (c ∷ s) =
    let ends = part ∷ split_commas [] s in
    let goes_on = split_commas (part ++ (c ∷ [])) s in if c == b',' then ends else goes_on

-- `{c.strip() for c in settings.allowed_content_types.split(",") if c.strip()}`
unfoldable pub allowed_types : ApiSettings → List Text
unfolding split_commas
allowed_types settings =
    select_where (λ c. not (length c == 0))
      (map strip (split_commas [] settings.allowed_content_types))

unfoldable pub key_of : Upload → String → String
unfolding object_extension
key_of u digest = str_append "content/" (
    str_append (slice digest 0 2) (
      str_append "/" (
        str_append digest (
          str_append "/" (
            str_append (u.uuid_text u.content_id)
              (str_append "." (object_extension u.content_type)))))))

unfoldable pub bucket_of : ApiSettings → String
bucket_of settings =
    if text_eq (lower settings.storage_provider) (codes "gcs")
    then settings.gcs_bucket
    else settings.s3_bucket

abbrev pub http : ℕ → String → HttpError
http status_code detail = record { status_code = status_code; detail = detail }

-- `HTTPException` of the three checks
unfoldable pub check_upload : {S : Type 0} → ApiSettings → Upload → Exec HttpError S (Unit {0})
unfolding allowed_types
check_upload settings u = do
  raise_if (not (any (text_eq (codes u.content_type)) (allowed_types settings)))
      (http 415 (str_append "Unsupported content type: " u.content_type))
  raise_if (length u.body == 0) (http 400 "Empty file")
  raise_if (ltb settings.max_upload_bytes (length u.body)) (http 413 "File exceeds max upload size")

unfoldable pub digest_of : ApiSettings → Upload → String
unfolding content_hash
digest_of settings u = content_hash u.sha256_hex u.body (strip u.caption) settings.policy_version

abbrev pub dedup : Job → String → String → IngestResponse
dedup j digest message = record {
  job_id = j.id;
  content_id = j.content_id;
  content_hash = digest;
  status = job_status_text j.status;
  deduplicated = true;
  message = message;
}
