-- ===== src/Ingest/Fetch.antt =====
-- apps/api/app/url_fetch.py: fetching an image from a URL. The URL parser, the address parser, the
-- resolver and the HTTP client are in `Network`; `urlparse` gives the host name in lower case.
pub mod Safety
use multimodal_content_moder.Common.{
  ℕ, ◌+◌, ◌==◌, ltb, leb, String, str_eq, str_append, Bool, false, ◌&&◌, ◌||◌, not, Option, none,
  some, List, [], ◌∷◌, ◌++◌, length, take, drop, any, if◌then◌else◌, codes, text_eq, lower,
  starts_with, strip,
}
use multimodal_content_moder.Common.Exec.{Result, ok, err, Exec, pure, lift, raise_if, ◌>>=◌, ◌>>◌}
use multimodal_content_moder.Envelope.{Text}

-- `UnsafeImageUrl`, `ImageFetchError`, and any other exception
pub data FetchError : Type 0 where
  unsafe_url : String → FetchError
  fetch_failed : String → FetchError
  uncaught : String → FetchError

-- the properties of `ipaddress.ip_address(...)`
pub record IpAddress : Type 0 where
  pub is_private : Bool
  pub is_loopback : Bool
  pub is_link_local : Bool
  pub is_multicast : Bool
  pub is_reserved : Bool
  pub is_unspecified : Bool
  pub is_v4 : Bool

-- `urlparse(raw)`; reading the port may raise
pub record ParsedUrl : Type 0 where
  pub scheme : Text
  pub username : Option Text
  pub password : Option Text
  pub hostname : Option Text
  pub port : Result String (Option ℕ)

pub data ResolveError : Type 0 where
  gaierror : String → ResolveError
  resolve_error : String → ResolveError

-- the exceptions of `opener.open` and `resp.read`, in the order of the `except` clauses
pub data NetError : Type 0 where
  redirected : NetError
  http_error : String → NetError
  url_error : String → NetError
  timed_out : NetError
  os_error : String → NetError
  net_error : String → NetError

-- a response: its Content-Type, and what the reads return; the end of the list is the end of the body
pub record Response : Type 0 where
  pub content_type : Option Text
  pub reads : List (Result NetError (List ℕ))

pub record Network : Type 0 where
  pub urlparse : Text → Result String ParsedUrl
  pub ip_address : Text → Option IpAddress
  pub getaddrinfo : Text → ℕ → Result ResolveError (List IpAddress)
  pub open_url : Text → Result NetError Response

abbrev pub allowed_image_types : List Text
allowed_image_types =
    codes "image/jpeg" ∷ codes "image/png" ∷ codes "image/webp" ∷ codes "image/gif" ∷ []

abbrev pub blocked_hosts : List Text
blocked_hosts =
    codes "localhost"
    ∷ codes "localhost.localdomain"
    ∷ codes "metadata.google.internal"
    ∷ codes "metadata.goog"
    ∷ []

-- `header.split(";", 1)[0]`
unfoldable pub before_semicolon : Text → Text
before_semicolon [] = []
before_semicolon (c ∷ s) = let rest = before_semicolon s in if c == b';' then [] else c ∷ rest

-- the declared type, if it is allowed
unfoldable pub declared_type : Option Text → Result FetchError Text
declared_type none = err (fetch_failed "remote bytes are not a supported image type")
declared_type (some header) =
    let declared = lower (strip (before_semicolon header)) in
    if not (length header == 0) && any (text_eq declared) allowed_image_types
    then ok declared
    else err (fetch_failed "remote bytes are not a supported image type")

unfoldable pub sniff_content_type : List ℕ → Option Text → Result FetchError Text
unfolding declared_type
sniff_content_type data_bytes header =
    if starts_with data_bytes (137 ∷ 80 ∷ 78 ∷ 71 ∷ 13 ∷ 10 ∷ 26 ∷ 10 ∷ [])
    then ok (codes "image/png")
    else if starts_with data_bytes (255 ∷ 216 ∷ [])
    then ok (codes "image/jpeg")
    else if text_eq (take 6 data_bytes) (codes "GIF87a")
        || text_eq (take 6 data_bytes) (codes "GIF89a")
    then ok (codes "image/gif")
    else if leb 12 (length data_bytes)
        && text_eq (take 4 data_bytes) (codes "RIFF")
        && text_eq (take 4 (drop 8 data_bytes)) (codes "WEBP")
    then ok (codes "image/webp")
    else declared_type header

unfoldable pub is_blocked_ip : IpAddress → Bool
is_blocked_ip ip =
    ip.is_private
    || ip.is_loopback
    || ip.is_link_local
    || ip.is_multicast
    || ip.is_reserved
    || ip.is_unspecified
    || (ip.is_v4 && ip.is_reserved)

-- `x or ""`, whose truth is whether it is not empty
abbrev pub or_blank : Option Text → Text
or_blank none = []
or_blank (some t) = t

abbrev pub is_given : Option Text → Bool
is_given t = not (length (or_blank t) == 0)

-- `host.rstrip(".")`
unfoldable pub rstrip_dots : Text → Text
rstrip_dots [] = []
rstrip_dots (c ∷ s) =
    let rest = rstrip_dots s in if c == b'.' && length rest == 0 then [] else c ∷ rest

-- `s.endswith(p)`
unfoldable pub ends_with : Text → Text → Bool
ends_with [] p = text_eq [] p
ends_with (c ∷ s) p = text_eq (c ∷ s) p || ends_with s p

-- `parsed.hostname.lower().rstrip(".")`
abbrev pub host_of : ParsedUrl → Text
host_of parsed = rstrip_dots (lower (or_blank parsed.hostname))

unfoldable pub is_blocked_host : Text → Bool
is_blocked_host host = any (text_eq host) blocked_hosts || ends_with host (codes ".localhost")

abbrev pub is_http : Text → Bool
is_http scheme = text_eq scheme (codes "http") || text_eq scheme (codes "https")

-- `literal is not None and is_blocked_ip(literal)`
abbrev pub is_blocked_literal : Option IpAddress → Bool
is_blocked_literal none = false
is_blocked_literal (some ip) = is_blocked_ip ip

abbrev pub uncaught_error : {A : Type 0} → Result String A → Result FetchError A
uncaught_error (ok a) = ok a
uncaught_error (err e) = err (uncaught e)

-- the checks of `validate_image_url` on the parsed URL
unfoldable pub check_url : {S : Type 0} → Network → ParsedUrl → Exec FetchError S (Unit {0})
check_url net parsed = do
  raise_if (not (is_http parsed.scheme)) (unsafe_url "only http and https image URLs are allowed")
  raise_if (is_given parsed.username || is_given parsed.password)
      (unsafe_url "URLs with credentials are not allowed")
  raise_if (not (is_given parsed.hostname)) (unsafe_url "image URL is missing a host")
  raise_if (is_blocked_host (host_of parsed)) (unsafe_url "image URL host is not allowed")
  raise_if (is_blocked_literal (net.ip_address (host_of parsed)))
      (unsafe_url "image URL must not target a private address")

-- `parsed.port or (443 if parsed.scheme == "https" else 80)`
unfoldable pub port_of : ParsedUrl → Option ℕ → ℕ
port_of parsed none = if text_eq parsed.scheme (codes "https") then 443 else 80
port_of parsed (some port) =
    if port == 0 then (if text_eq parsed.scheme (codes "https") then 443 else 80) else port

abbrev pub resolve_failure : {A : Type 0} → Result ResolveError A → Result FetchError A
resolve_failure (ok a) = ok a
resolve_failure (err (gaierror e)) =
    err (fetch_failed (str_append "could not resolve image host: " e))
resolve_failure (err (resolve_error e)) = err (uncaught e)

-- the `except` clauses
abbrev pub net_failure : NetError → FetchError
net_failure redirected = unsafe_url "image URL redirects are not followed"
net_failure (http_error code) = fetch_failed (str_append "image URL returned HTTP " code)
net_failure (url_error reason) = fetch_failed (str_append "image URL fetch failed: " reason)
net_failure timed_out = fetch_failed "image URL fetch timed out"
net_failure (os_error e) = fetch_failed (str_append "image URL fetch failed: " e)
net_failure (net_error e) = uncaught e

-- `while True:` with `total` and the joined chunks
unfoldable pub read_chunks :
    ℕ → List ℕ → List (Result NetError (List ℕ)) → Result FetchError (List ℕ)
read_chunks max_bytes data_bytes [] = ok data_bytes
read_chunks max_bytes data_bytes (err e ∷ reads) = err (net_failure e)
read_chunks max_bytes data_bytes (ok [] ∷ reads) = ok data_bytes
read_chunks max_bytes data_bytes (ok (b ∷ bs) ∷ reads) =
    let read = data_bytes ++ (b ∷ bs) in
    let rest = read_chunks max_bytes read reads in
    if ltb max_bytes (length read)
    then err (fetch_failed "remote image exceeds max upload size")
    else rest

abbrev pub opened : Result NetError Response → Result FetchError Response
opened (ok r) = ok r
opened (err e) = err (net_failure e)

-- `fetch_image_bytes` from the request on
unfoldable pub receive_image : {S : Type 0} → Network → Text → ℕ → Exec FetchError S (List ℕ × Text)
receive_image net cleaned max_bytes = do
  response ← lift (opened (net.open_url cleaned))
  data_bytes ← lift (read_chunks max_bytes [] response.reads)
  raise_if (length data_bytes == 0) (fetch_failed "remote image was empty")
  content_type ← lift (sniff_content_type data_bytes response.content_type)
  pure (data_bytes, content_type)

-- the resolution of the host, and the check of its addresses
unfoldable pub check_addresses : {S : Type 0} → Network → ParsedUrl → Exec FetchError S (Unit {0})
check_addresses net parsed = do
  port ← lift (uncaught_error parsed.port)
  addresses ←
      lift (resolve_failure (net.getaddrinfo (or_blank parsed.hostname) (port_of parsed port)))
  raise_if (length addresses == 0) (fetch_failed "could not resolve image host")
  raise_if (any is_blocked_ip addresses)
      (unsafe_url "image URL resolved to a private or reserved address")

unfoldable pub fetch_image_bytes :
    {S : Type 0} → Network → Text → ℕ → Exec FetchError S (List ℕ × Text)
fetch_image_bytes net url max_bytes = do
  parsed ← lift (uncaught_error (net.urlparse (strip url)))
  check_url net parsed
  check_addresses net parsed
  receive_image net (strip url) max_bytes
