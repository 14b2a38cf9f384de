-- ===== src/Telemetry.antt =====
-- apps/api/app/telemetry.py and apps/worker/worker/telemetry.py: the set-up of tracing, which is the
-- same in both, and the trace context that travels with a message (queue.py of the API, telemetry.py
-- of the worker). Spans, exporters and the propagator are OpenTelemetry's.
pub mod Endpoint
pub mod RoundTrip
use multimodal_content_moder.Common.{
  ℕ, ◌==◌, String, str_eq, Bool, true, false, ◌&&◌, ◌||◌, not, Option, none, some, List, [], ◌∷◌,
  ◌++◌, length, if◌then◌else◌, codes, text_eq, strip,
}
use multimodal_content_moder.Envelope.{Text}

-- `s.rstrip("/")`
unfoldable pub rstrip_slash : Text → Text
rstrip_slash [] = []
rstrip_slash (c ∷ s) =
    let rest = rstrip_slash s in if c == b'/' && length rest == 0 then [] else c ∷ rest

-- `s.endswith(p)`
unfoldable pub ends_with : Text → Text → Bool
ends_with [] p = text_eq [] p
ends_with (c ∷ s) p = text_eq (c ∷ s) p || ends_with s p

-- `_otlp_http_traces_endpoint`
unfoldable pub otlp_http_traces_endpoint : Text → Text
unfolding rstrip_slash ends_with
otlp_http_traces_endpoint endpoint =
    let base = rstrip_slash endpoint in
    if ends_with base (codes "/v1/traces") then base else base ++ codes "/v1/traces"

pub data SpanExporter : Type 0 where
  otlp : Text → SpanExporter
  console : SpanExporter

-- the provider, with its exporters in order
pub record TracerProvider : Type 0 where
  pub service_name : String
  pub processors : List SpanExporter

-- `_initialized`, and the provider that was set
pub record Tracing : Type 0 where
  pub initialized : Bool
  pub provider : Option TracerProvider

pub record TracingOptions : Type 0 where
  pub service_name : String
  pub enabled : Bool
  pub otlp_endpoint : Text
  pub console_exporter : Bool

unfoldable pub processors_of : TracingOptions → List SpanExporter
unfolding otlp_http_traces_endpoint
processors_of o =
    let endpoint = strip o.otlp_endpoint in
    (if not (length endpoint == 0) then otlp (otlp_http_traces_endpoint endpoint) ∷ [] else [])
    ++ (if o.console_exporter then console ∷ [] else [])

unfoldable pub setup_tracing : TracingOptions → Tracing → Tracing
unfolding processors_of
setup_tracing o s =
    if s.initialized then s else if not o.enabled then record s { initialized = true } else record {
      initialized = true;
      provider = some (record { service_name = o.service_name; processors = processors_of o });
    }

-- a dict of texts, in the order of its keys
abbrev pub Dict : Type 0 → Type 0
Dict V = List (String × V)

module _ {V : Type 0} where
  -- `d[key] = value`
  unfoldable pub set_key : String → V → Dict V → Dict V
  set_key key value [] = (key, value) ∷ []
  set_key key value ((k, v) ∷ d) =
      let rest = set_key key value d in if str_eq k key then (k, value) ∷ d else (k, v) ∷ rest

  -- `{**d, **items}`
  unfoldable pub merge : Dict V → Dict V → Dict V
  unfolding set_key
  merge d [] = d
  merge d ((k, v) ∷ items) = merge (set_key k v d) items

-- an attribute of an SQS message, as boto3 takes and gives it; `string_value` is `StringValue`
pub record MessageAttribute : Type 0 where
  pub data_type : String
  pub string_value : Option String

abbrev pub string_attribute : String → MessageAttribute
string_attribute value = record { data_type = "String"; string_value = some value }

-- `_trace_message_attributes`, of the carrier that the propagator filled, whose keys are distinct
unfoldable pub trace_message_attributes : Dict String → Dict MessageAttribute
trace_message_attributes [] = []
trace_message_attributes ((key, value) ∷ carrier) =
    (key, string_attribute value) ∷ trace_message_attributes carrier

-- `message_attributes` of `enqueue_sqs`, and `attrs` of `enqueue_pubsub`
unfoldable pub sqs_attributes : String → String → Dict String → Dict MessageAttribute
unfolding merge trace_message_attributes
sqs_attributes content_hash job_id carrier =
    merge
      (("content_hash", string_attribute content_hash) ∷ ("job_id", string_attribute job_id) ∷ [])
      (trace_message_attributes carrier)

unfoldable pub pubsub_attributes : String → String → Dict String → Dict String
unfolding merge
pubsub_attributes content_hash job_id carrier =
    merge (("content_hash", content_hash) ∷ ("job_id", job_id) ∷ []) carrier

-- `if string_value: carrier[key] = string_value`
abbrev pub add_text : String → Option String → Dict String → Dict String
add_text key none carrier = carrier
add_text key (some value) carrier = if str_eq value "" then carrier else (key, value) ∷ carrier

-- `carrier_from_sqs_attributes`; a value that is no dict is `none`
unfoldable pub carrier_from_sqs_attributes : Dict (Option MessageAttribute) → Dict String
carrier_from_sqs_attributes [] = []
carrier_from_sqs_attributes ((key, none) ∷ attributes) = carrier_from_sqs_attributes attributes
carrier_from_sqs_attributes ((key, some a) ∷ attributes) =
    add_text key a.string_value (carrier_from_sqs_attributes attributes)

-- `carrier_from_pubsub_attributes`
unfoldable pub carrier_from_pubsub_attributes : Dict (Option String) → Dict String
carrier_from_pubsub_attributes [] = []
carrier_from_pubsub_attributes ((key, none) ∷ attributes) =
    carrier_from_pubsub_attributes attributes
carrier_from_pubsub_attributes ((key, some value) ∷ attributes) =
    (key, value) ∷ carrier_from_pubsub_attributes attributes

-- what a queue delivers: every attribute that was sent
unfoldable pub delivered : {V : Type 0} → Dict V → Dict (Option V)
delivered [] = []
delivered ((key, value) ∷ d) = (key, some value) ∷ delivered d
