-- ===== src/Auth/Remote/Laws.antt =====
-- What internal/middleware/remote.go does about HTTP and HTTPS.
use osm_device_adapter.Prelude.{
  ◌≡◌, refl, String, Bool, true, false, Option, none, some, arith, str_eq, eq_iff,
}
use osm_device_adapter.Auth.Remote.{
  RemoteRequest, extract_protocol, RequestMetadata, request_metadata, RemotePassage, moves, passes,
  with_host, remote_middleware,
}

-- Whether a browser that got this answer comes again by HTTPS to the same page of the canonical
-- host, and whether the handlers see the request.
abbrev pub is_redirect : RemotePassage → Bool
is_redirect (moves host path query) = true
is_redirect (passes metadata hsts) = false

abbrev pub has_hsts : RemotePassage → Bool
has_hsts (moves host path query) = false
has_hsts (passes metadata hsts) = hsts

with_host-kinds :
    (host : String) (metadata : RequestMetadata) (r : RemoteRequest)
    → (is_redirect (with_host (some host) metadata r) ≡ str_eq metadata.protocol "http")
      × (has_hsts (with_host (some host) metadata r) ≡ str_eq metadata.protocol "https")
with_host-kinds host metadata r = ground (
  arith,
  eq_iff metadata.protocol "",
  eq_iff metadata.protocol "http",
  eq_iff metadata.protocol "https",
  eq_iff "" "http",
  eq_iff "" "https",
  eq_iff "http" "https",
)

-- With a host to go to, exactly the requests known to have come by HTTP are redirected, and exactly
-- those known to have come by HTTPS get the HSTS header.
pub remote_middleware-kinds :
    (host : String) (r : RemoteRequest)
    → (is_redirect (remote_middleware (some host) r) ≡ str_eq (extract_protocol r) "http")
      × (has_hsts (remote_middleware (some host) r) ≡ str_eq (extract_protocol r) "https")
unfolding remote_middleware request_metadata
remote_middleware-kinds host r = with_host-kinds host (request_metadata r) r

-- The request that follows a redirect is not redirected again, whatever the rest of its headers
-- are: no loop.
pub remote_middleware-followed :
    (exposed : Option String) (r : RemoteRequest)
    → extract_protocol r ≡ "https"
    → is_redirect (remote_middleware exposed r) ≡ false
unfolding remote_middleware request_metadata
remote_middleware-followed none r e = refl
remote_middleware-followed (some host) r e = rw e
