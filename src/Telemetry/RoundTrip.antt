-- ===== src/Telemetry/RoundTrip.antt =====
-- The trace context comes out of the message as it went in.
use multimodal_content_moder.Common.{
  ◌≡◌, refl, ◌∙◌, ap, String, str_eq, false, [], ◌∷◌, All, arith, Bool-cases, inl, inr,
}
use multimodal_content_moder.Telemetry.{
  Dict, set_key, merge, string_attribute, trace_message_attributes, sqs_attributes,
  pubsub_attributes, carrier_from_sqs_attributes, carrier_from_pubsub_attributes, delivered,
}

-- no value is the empty text
abbrev pub AreFilled : Dict String → Type 0
AreFilled d = All (λ (key, value). str_eq value "" ≡ false) d

trace_message_attributes-set_key :
    (key value : String) (d : Dict String)
    → set_key key (string_attribute value) (trace_message_attributes d)
      ≡ trace_message_attributes (set_key key value d)
unfolding set_key trace_message_attributes
trace_message_attributes-set_key key value [] = refl
trace_message_attributes-set_key key value ((k, v) ∷ d) =
    ground (arith, trace_message_attributes-set_key key value d)

trace_message_attributes-merge :
    (d items : Dict String)
    → merge (trace_message_attributes d) (trace_message_attributes items)
      ≡ trace_message_attributes (merge d items)
unfolding merge trace_message_attributes
trace_message_attributes-merge d [] = refl
trace_message_attributes-merge d ((k, v) ∷ items) =
    ap (λ a. merge a (trace_message_attributes items)) (trace_message_attributes-set_key k v d)
    ∙ trace_message_attributes-merge (set_key k v d) items

set_key-AreFilled :
    (key value : String) (d : Dict String)
    → str_eq value "" ≡ false
    → AreFilled d
    → AreFilled (set_key key value d)
unfolding set_key
set_key-AreFilled key value [] h filled = (h, tt)
set_key-AreFilled key value ((k, v) ∷ d) h (first, rest) = elim (Bool-cases (str_eq k key)) [
  | inl same ↦ rw (same, set_key) (h, rest)
  | inr other ↦ rw (other, set_key) (first, set_key-AreFilled key value d h rest)
]

merge-AreFilled :
    (d items : Dict String) → AreFilled d → AreFilled items → AreFilled (merge d items)
unfolding merge
merge-AreFilled d [] filled items = filled
merge-AreFilled d ((k, v) ∷ rest) filled (first, others) =
    merge-AreFilled (set_key k v d) rest (set_key-AreFilled k v d first filled) others

from_sqs_lem :
    (d : Dict String)
    → AreFilled d
    → carrier_from_sqs_attributes (delivered (trace_message_attributes d)) ≡ d
unfolding carrier_from_sqs_attributes delivered trace_message_attributes
from_sqs_lem [] filled = refl
from_sqs_lem ((k, v) ∷ d) (first, rest) = rw (first, from_sqs_lem d rest) refl

from_pubsub_lem : (d : Dict String) → carrier_from_pubsub_attributes (delivered d) ≡ d
unfolding carrier_from_pubsub_attributes delivered
from_pubsub_lem [] = refl
from_pubsub_lem ((k, v) ∷ d) = ap (◌∷◌ (k, v)) (from_pubsub_lem d)

-- What the worker takes out of a delivered message as the carrier is the same for both queues: the
-- trace context that the API put in, beside the hash and the job's id, where a key of the context
-- wins. For SQS no value may be the empty text.
pub carrier_round_trip :
    (content_hash job_id : String) (carrier : Dict String)
    → str_eq content_hash "" ≡ false
    → str_eq job_id "" ≡ false
    → AreFilled carrier
    → let sent = merge (("content_hash", content_hash) ∷ ("job_id", job_id) ∷ []) carrier in
      (carrier_from_sqs_attributes (delivered (sqs_attributes content_hash job_id carrier)) ≡ sent)
      × (carrier_from_pubsub_attributes (delivered (pubsub_attributes content_hash job_id carrier))
          ≡ sent)
unfolding sqs_attributes pubsub_attributes
carrier_round_trip content_hash job_id carrier hash job filled =
    let base : Dict String = ("content_hash", content_hash) ∷ ("job_id", job_id) ∷ [] in
    (
      ap (λ a. carrier_from_sqs_attributes (delivered a))
            (trace_message_attributes-merge base carrier)
          ∙ from_sqs_lem (merge base carrier)
              (merge-AreFilled base carrier (hash, (job, tt)) filled),
      from_pubsub_lem (merge base carrier),
    )
