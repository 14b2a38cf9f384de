-- ===== src/Examples/Fetch.antt =====
-- A JPEG of three bytes on a public host.
use multimodal_content_moder.Common.{true, false, none, some, [], ◌∷◌, codes}
use multimodal_content_moder.Common.Exec.{ok}
use multimodal_content_moder.Ingest.Fetch.{IpAddress, Network}

abbrev pub public_ip : IpAddress
public_ip = record {
  is_private = false;
  is_loopback = false;
  is_link_local = false;
  is_multicast = false;
  is_reserved = false;
  is_unspecified = false;
  is_v4 = true;
}

abbrev pub net : Network
net = record {
  urlparse = λ raw. ok (record {
    scheme = codes "https";
    username = none;
    password = none;
    hostname = some (codes "example.org");
    port = ok none;
  });
  ip_address = λ host. none;
  getaddrinfo = λ host port. ok (public_ip ∷ []);
  open_url =
      λ url. ok (record { content_type = none; reads = ok (255 ∷ 216 ∷ []) ∷ ok (1 ∷ []) ∷ [] });
}
