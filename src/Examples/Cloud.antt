-- ===== src/Examples/Cloud.antt =====
-- A small object store, and a trace context.
use text.Mathlib.TextPositions.{eq_refl}
use multimodal_content_moder.Common.{
  ℕ, ◌≡◌, refl, String, str_eq, Bool, true, false, ◌&&◌, Option, none, some, List, [], ◌∷◌,
  if◌then◌else◌, codes,
}
use multimodal_content_moder.Common.Exec.{Result, ok, err}
use multimodal_content_moder.Envelope.{Text}
use multimodal_content_moder.Storage.{
  CloudStore, Location, s3, gcs, same_location, Put, put_object, put_all,
}
use multimodal_content_moder.Telemetry.{
  Dict, merge, sqs_attributes, pubsub_attributes, carrier_from_sqs_attributes,
  carrier_from_pubsub_attributes, delivered,
}
use multimodal_content_moder.Telemetry.RoundTrip.{carrier_round_trip}
use multimodal_content_moder.Examples.Instances.{settings}
use multimodal_content_moder.Examples.Ingest as Ingest

abbrev Objects : Type 0
Objects = Location → String → Option (List ℕ × String)

abbrev same_object : Location → Location → String → String → Bool
same_object at at' key key' = same_location at at' && str_eq key key'

abbrev write : Location → String → List ℕ → String → Objects → Objects
write at key body content_type c =
    λ at' key'. if same_object at at' key key' then some (body, content_type) else c at' key'

abbrev read_object : Option (List ℕ × String) → Result Text (List ℕ × Option String)
read_object none = err (codes "NoSuchKey")
read_object (some (body, content_type)) = ok (body, some content_type)

same_location_refl : (at : Location) → same_location at at ≡ true
unfolding same_location
same_location_refl (s3 b) = eq_refl b
same_location_refl (gcs b) = eq_refl b

get-put :
    (at : Location) (key : String) (body : List ℕ) (content_type : String) (c : Objects)
    → read_object (write at key body content_type c at key) ≡ ok (body, some content_type)
get-put at key body content_type c = rw (same_location_refl at, eq_refl key) refl

get-put_other :
    (at at' : Location) (key key' : String) (body : List ℕ) (content_type : String) (c : Objects)
    → same_object at at' key key' ≡ false
    → read_object (write at key body content_type c at' key') ≡ read_object (c at' key')
get-put_other at at' key key' body content_type c h = rw h refl

abbrev store : CloudStore
store = record {
  Cloud = Objects;
  put = λ at key body content_type c. (ok tt, write at key body content_type c);
  get = λ at key c. read_object (c at key);
  presign = λ at key ttl. key;
  get-put = λ at key body content_type c h. get-put at key body content_type c;
  get-put_other = get-put_other;
}

abbrev nothing : Objects
nothing = λ at key. none

abbrev other_upload : Put store
other_upload = record { key = "content/cd/2.png"; body = 9 ∷ []; content_type = "image/gif" }

abbrev first_key : String
first_key = "content/ab/1.png"

abbrev after_both : Objects
after_both =
    put_all store Ingest.settings (other_upload ∷ [])
      (put_object store Ingest.settings first_key (1 ∷ 2 ∷ []) "image/png" nothing).1

abbrev context : Dict String
context = ("traceparent", "00-4bf9-00f0-01") ∷ ("tracestate", "vendor=1") ∷ []

carrier_round_trip_example :
    let sent = merge (("content_hash", "abc") ∷ ("job_id", "7") ∷ []) context in
    (carrier_from_sqs_attributes (delivered (sqs_attributes "abc" "7" context)) ≡ sent)
    × (carrier_from_pubsub_attributes (delivered (pubsub_attributes "abc" "7" context)) ≡ sent)
carrier_round_trip_example = carrier_round_trip "abc" "7" context refl refl (refl, (refl, tt))
