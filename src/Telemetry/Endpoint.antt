-- ===== src/Telemetry/Endpoint.antt =====
-- The set-up of tracing: once, and with an endpoint that is complete.
use multimodal_content_moder.Common.{
  ◌≡◌, refl, true, Bool-cases, inl, inr, [], ◌∷◌, ◌++◌, length-append, text_eq_iff, codes, arith,
}
use multimodal_content_moder.Envelope.{Text}
use multimodal_content_moder.Telemetry.{
  rstrip_slash, ends_with, otlp_http_traces_endpoint, Tracing, TracingOptions, setup_tracing,
}

abbrev traces : Text
traces = codes "/v1/traces"

rstrip_slash-twice : (s : Text) → rstrip_slash (rstrip_slash s) ≡ rstrip_slash s
unfolding rstrip_slash
rstrip_slash-twice [] = refl
rstrip_slash-twice (c ∷ s) = ground (arith, rstrip_slash-twice s)

rstrip_slash-traces : (b : Text) → rstrip_slash (b ++ traces) ≡ b ++ traces
unfolding rstrip_slash codes
rstrip_slash-traces [] = refl
rstrip_slash-traces (c ∷ b) = ground (arith, rstrip_slash-traces b, length-append b traces)

ends_with_self : (p : Text) → ends_with p p ≡ true
unfolding ends_with
ends_with_self [] = ground (arith, (text_eq_iff [] []).1 refl)
ends_with_self (c ∷ p) = ground (arith, (text_eq_iff (c ∷ p) (c ∷ p)).1 refl)

ends_with-append : (b p : Text) → ends_with (b ++ p) p ≡ true
unfolding ends_with
ends_with-append [] p = ends_with_self p
ends_with-append (c ∷ b) p = ground (arith, ends_with-append b p)

-- An endpoint that is complete is taken as it is: the completion of a completed endpoint is itself.
pub endpoint_idempotent :
    (endpoint : Text)
    → otlp_http_traces_endpoint (otlp_http_traces_endpoint endpoint)
      ≡ otlp_http_traces_endpoint endpoint
unfolding otlp_http_traces_endpoint
endpoint_idempotent endpoint =
    let base = rstrip_slash endpoint in
    elim (Bool-cases (ends_with base traces)) [
      | inl complete ↦ ground (arith, rstrip_slash-twice endpoint)
      | inr short ↦ ground (arith, rstrip_slash-traces base, ends_with-append base traces)
    ]

-- the first call alone decides
pub setup_once :
    (first later : TracingOptions) (s : Tracing)
    → setup_tracing later (setup_tracing first s) ≡ setup_tracing first s
unfolding setup_tracing
setup_once first later s = ground arith
