-- ===== src/Auth/Remote.antt =====
-- internal/middleware/remote.go: what the proxy's headers say of a request, and HTTPS. A header
-- that is missing reads as "".
pub mod Laws
use osm_device_adapter.Prelude.{
  String, Bool, true, false, not, Option, none, some, str_eq, if◌then◌else◌,
}

-- The parts of a request that are read. `cf_visitor_scheme` is the scheme that the header
-- CF-Visitor decodes to, `none` where it is no JSON.
pub record RemoteRequest : Type 0 where
  pub cf_connecting_ip : String
  pub x_forwarded_for : String
  pub remote_addr : String
  pub cf_visitor : String
  pub cf_visitor_scheme : Option String
  pub x_forwarded_proto : String
  pub has_tls : Bool
  pub cf_ip_country : String
  pub path : String
  pub raw_query : String

unfoldable pub extract_remote_ip : RemoteRequest → String
extract_remote_ip r =
    if not (str_eq r.cf_connecting_ip "")
    then r.cf_connecting_ip
    else if not (str_eq r.x_forwarded_for "")
    then r.x_forwarded_for
    else r.remote_addr

abbrev pub forwarded_protocol : RemoteRequest → String
forwarded_protocol r =
    if not (str_eq r.x_forwarded_proto "")
    then r.x_forwarded_proto
    else if r.has_tls
    then "https"
    else ""

abbrev visitor_or : Option String → String → String
visitor_or none otherwise = otherwise
visitor_or (some scheme) otherwise = scheme

unfoldable pub extract_protocol : RemoteRequest → String
extract_protocol r =
    if not (str_eq r.cf_visitor "")
    then visitor_or r.cf_visitor_scheme (forwarded_protocol r)
    else forwarded_protocol r

-- `RemoteMetadata` of internal/middleware/context.go, whole.
pub record RequestMetadata : Type 0 where
  pub ip : String
  pub protocol : String
  pub country : String

unfoldable pub request_metadata : RemoteRequest → RequestMetadata
unfolding extract_remote_ip extract_protocol
request_metadata r = record {
  ip = extract_remote_ip r;
  protocol = extract_protocol r;
  country = r.cf_ip_country;
}

-- A redirect to `https://host/path?query`, or the request goes on, with or without the HSTS header
-- on the answer.
pub data RemotePassage : Type 0 where
  moves : (host : String) → (path : String) → (raw_query : String) → RemotePassage
  passes : RequestMetadata → (hsts : Bool) → RemotePassage

abbrev with_host : Option String → RequestMetadata → RemoteRequest → RemotePassage
with_host none metadata r = passes metadata false
with_host (some host) metadata r =
    if str_eq metadata.protocol ""
    then passes metadata false
    else if str_eq metadata.protocol "http"
    then moves host r.path r.raw_query
    else if str_eq metadata.protocol "https"
    then passes metadata true
    else passes metadata false

-- `exposed_host` is the host of the configured URL, `none` where it does not parse.
unfoldable pub remote_middleware : Option String → RemoteRequest → RemotePassage
unfolding request_metadata
remote_middleware exposed_host r = with_host exposed_host (request_metadata r) r
