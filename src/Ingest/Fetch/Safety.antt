-- ===== src/Ingest/Fetch/Safety.antt =====
-- What a fetched image has passed.
use mathlib.Core.List.{append-nil, append_assoc}
use multimodal_content_moder.Common.{
  ℕ, ◌≤◌, ◌<◌, ◌≡◌, refl, ltb, Bool, true, false, ◌||◌, Option, none, some, List, [], ◌∷◌, ◌++◌,
  length, any, codes, text_eq, lower, strip, arith, ◌∙◌, inl, inr, Bool-cases,
}
use multimodal_content_moder.Common.Exec.{Result, ok, err, Result-cases}
use multimodal_content_moder.Envelope.{Text}
use multimodal_content_moder.Ingest.Fetch.{
  before_semicolon, IpAddress, ParsedUrl, NetError, Response, Network, allowed_image_types,
  declared_type, sniff_content_type, is_blocked_ip, or_blank, is_given, host_of, is_blocked_host,
  is_http, is_blocked_literal, check_url, port_of, read_chunks, receive_image, check_addresses,
  fetch_image_bytes, gaierror, resolve_error,
}

-- the body that was read is within the limit
read_chunks-within :
    (max_bytes : ℕ) (so_far : List ℕ) (reads : List (Result NetError (List ℕ))) (d : List ℕ)
    → length so_far ≤ max_bytes
    → read_chunks max_bytes so_far reads ≡ ok d
    → length d ≤ max_bytes
unfolding read_chunks
read_chunks-within max_bytes so_far [] d le h = ground arith
read_chunks-within max_bytes so_far (err e ∷ reads) d le h = absurd (ground arith)
read_chunks-within max_bytes so_far (ok [] ∷ reads) d le h = ground arith
read_chunks-within max_bytes so_far (ok (b ∷ bs) ∷ reads) d le h =
    let read = so_far ++ (b ∷ bs) in
    elim (Bool-cases (ltb max_bytes (length read))) [
      | inl large ↦ absurd (ground arith)
      | inr small ↦ read_chunks-within max_bytes read reads d (ground arith) (ground arith)
    ]

-- what the reads of a response give, up to the first empty one
abbrev pub body_of : List (Result NetError (List ℕ)) → List ℕ
body_of [] = []
body_of (err e ∷ reads) = []
body_of (ok [] ∷ reads) = []
body_of (ok (b ∷ bs) ∷ reads) = (b ∷ bs) ++ body_of reads

read_chunks-eq-body_of :
    (max_bytes : ℕ) (so_far : List ℕ) (reads : List (Result NetError (List ℕ))) (d : List ℕ)
    → read_chunks max_bytes so_far reads ≡ ok d
    → d ≡ so_far ++ body_of reads
unfolding read_chunks
read_chunks-eq-body_of max_bytes so_far [] d h = ground (arith, append-nil so_far)
read_chunks-eq-body_of max_bytes so_far (err e ∷ reads) d h = absurd (ground arith)
read_chunks-eq-body_of max_bytes so_far (ok [] ∷ reads) d h = ground (arith, append-nil so_far)
read_chunks-eq-body_of max_bytes so_far (ok (b ∷ bs) ∷ reads) d h =
    let read = so_far ++ (b ∷ bs) in
    elim (Bool-cases (ltb max_bytes (length read))) [
      | inl large ↦ absurd (ground arith)
      | inr small ↦
          read_chunks-eq-body_of max_bytes read reads d (ground arith)
          ∙ append_assoc so_far (b ∷ bs) (body_of reads)
    ]

abbrev is_allowed : Text → Bool
is_allowed content_type = any (text_eq content_type) allowed_image_types

signatures_allowed :
    (is_allowed (codes "image/png") ≡ true)
    × (is_allowed (codes "image/jpeg") ≡ true)
    × (is_allowed (codes "image/gif") ≡ true)
    × (is_allowed (codes "image/webp") ≡ true)
unfolding any text_eq codes
signatures_allowed = (refl, refl, refl, refl)

declared_allowed :
    (header : Option Text) (content_type : Text)
    → declared_type header ≡ ok content_type
    → is_allowed content_type ≡ true
unfolding declared_type
declared_allowed none content_type h = absurd (ground arith)
declared_allowed (some header) content_type h =
    elim (Bool-cases (is_allowed (lower (strip (before_semicolon header))))) [
      | inl allowed ↦ ground arith
      | inr other ↦ absurd (ground arith)
    ]

sniffed_allowed :
    (d : List ℕ) (header : Option Text) (content_type : Text)
    → sniff_content_type d header ≡ ok content_type
    → is_allowed content_type ≡ true
unfolding sniff_content_type
sniffed_allowed d header content_type h =
    ground (arith, signatures_allowed, declared_allowed header content_type)

module _ (net : Network) where
  -- what the URL of a fetched image has passed, and its bytes
  pub record IsFetched (url : Text) (max_bytes : ℕ) (data_bytes : List ℕ) (content_type : Text)
      : Type 0 where
    pub parsed : ParsedUrl
    pub parses : net.urlparse (strip url) ≡ ok parsed
    pub http : is_http parsed.scheme ≡ true
    pub no_credentials : is_given parsed.username || is_given parsed.password ≡ false
    pub host_allowed : is_blocked_host (host_of parsed) ≡ false
    pub literal_allowed : is_blocked_literal (net.ip_address (host_of parsed)) ≡ false
    pub addresses : List IpAddress
    pub given_port : Option ℕ
    pub port_read : parsed.port ≡ ok given_port
    pub resolves :
        net.getaddrinfo (or_blank parsed.hostname) (port_of parsed given_port) ≡ ok addresses
    pub has_address : 0 < length addresses
    pub all_allowed : any is_blocked_ip addresses ≡ false
    pub response : Response
    pub requested : net.open_url (strip url) ≡ ok response
    pub bytes : data_bytes ≡ body_of response.reads
    pub type_of_bytes : sniff_content_type data_bytes response.content_type ≡ ok content_type
    pub not_empty : 0 < length data_bytes
    pub not_large : length data_bytes ≤ max_bytes
    pub type_allowed : any (text_eq content_type) allowed_image_types ≡ true

module _ {S : Type 0} (net : Network) where
  checked_url :
      (parsed : ParsedUrl) (s : S)
      → (check_url net parsed s).0 ≡ ok tt
      → (is_http parsed.scheme ≡ true)
        × (is_given parsed.username || is_given parsed.password ≡ false)
        × (is_blocked_host (host_of parsed) ≡ false)
        × (is_blocked_literal (net.ip_address (host_of parsed)) ≡ false)
        × ((check_url net parsed s).1 ≡ s)
  unfolding check_url
  checked_url parsed s h = ground arith

  checked_addresses :
      (parsed : ParsedUrl) (s : S)
      → (check_addresses net parsed s).0 ≡ ok tt
      → (port : Option ℕ) × (addresses : List IpAddress) × (parsed.port ≡ ok port)
        × (net.getaddrinfo (or_blank parsed.hostname) (port_of parsed port) ≡ ok addresses)
        × (0 < length addresses)
        × (any is_blocked_ip addresses ≡ false)
  unfolding check_addresses
  checked_addresses parsed s h = elim (Result-cases parsed.port) [
    | inr (e, bad) ↦ absurd (ground arith)
    | inl (port, given) ↦
        elim (Result-cases (net.getaddrinfo (or_blank parsed.hostname) (port_of parsed port))) [
          | inr (gaierror e, bad) ↦ absurd (ground arith)
          | inr (resolve_error e, bad) ↦ absurd (ground arith)
          | inl (addresses, resolved) ↦
              (port, addresses, ground arith, resolved, ground arith, ground arith)
        ]
  ]

  received :
      (cleaned : Text) (max_bytes : ℕ) (s : S) (data_bytes : List ℕ) (content_type : Text)
      → (receive_image net cleaned max_bytes s).0 ≡ ok (data_bytes, content_type)
      → (response : Response) × (net.open_url cleaned ≡ ok response)
        × (data_bytes ≡ body_of response.reads)
        × (sniff_content_type data_bytes response.content_type ≡ ok content_type)
        × (0 < length data_bytes)
        × (length data_bytes ≤ max_bytes)
        × (is_allowed content_type ≡ true)
  unfolding receive_image
  received cleaned max_bytes s data_bytes content_type h =
      elim (Result-cases (net.open_url cleaned)) [
        | inr (e, bad) ↦ absurd (ground arith)
        | inl (response, good) ↦ elim (Result-cases (read_chunks max_bytes [] response.reads)) [
          | inr (e, bad) ↦ absurd (ground arith)
          | inl (d, read) ↦ elim (Result-cases (sniff_content_type d response.content_type)) [
            | inr (e, bad) ↦ absurd (ground arith)
            | inl (t, sniffed) ↦
                let within = read_chunks-within max_bytes [] response.reads d (omega arith) read in
                let allowed = sniffed_allowed d response.content_type t sniffed in
                let joined = read_chunks-eq-body_of max_bytes [] response.reads d read in
                (
                  response,
                  ground arith,
                  ground (arith, joined),
                  ground (arith, sniffed),
                  ground arith,
                  ground (arith, within),
                  ground (arith, allowed),
                )
          ]
        ]
      ]

  -- An image that is fetched has a URL of http or https without credentials, whose host is not on the
  -- list; the host resolved to some addresses before the request, none of them private or reserved;
  -- the request was made to this URL, and the bytes are what its response gave: not empty, not larger
  -- than the limit, and of an allowed type.
  pub fetch-IsFetched :
      (url : Text) (max_bytes : ℕ) (s : S) (data_bytes : List ℕ) (content_type : Text)
      → (fetch_image_bytes net url max_bytes s).0 ≡ ok (data_bytes, content_type)
      → IsFetched net url max_bytes data_bytes content_type
  unfolding fetch_image_bytes
  fetch-IsFetched url max_bytes s data_bytes content_type h =
      elim (Result-cases (net.urlparse (strip url))) [
        | inr (e, bad) ↦ absurd (ground arith)
        | inl (parsed, parses) ↦ elim (Result-cases (check_url net parsed s).0) [
          | inr (e, bad) ↦ absurd (ground arith)
          | inl (u, checked) ↦
              let safe = checked_url parsed s checked in
              elim (Result-cases (check_addresses net parsed s).0) [
                | inr (e, bad) ↦ absurd (ground (arith, safe))
                | inl (v, resolved) ↦
                    let found = checked_addresses parsed s resolved in
                    let s' = (check_addresses net parsed s).1 in
                    let got =
                      received (strip url) max_bytes s' data_bytes content_type
                        (ground (arith, safe)) in
                    record {
                      parsed = parsed;
                      parses = parses;
                      http = safe.0;
                      no_credentials = safe.1;
                      host_allowed = safe.2;
                      literal_allowed = safe.3;
                      given_port = found.0;
                      addresses = found.1;
                      port_read = found.2;
                      resolves = found.3;
                      has_address = found.4;
                      all_allowed = found.5;
                      response = got.0;
                      requested = got.1;
                      bytes = got.2;
                      type_of_bytes = got.3;
                      not_empty = got.4;
                      not_large = got.5;
                      type_allowed = got.6;
                    }
              ]
        ]
      ]
