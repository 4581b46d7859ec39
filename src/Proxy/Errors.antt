-- ===== src/Proxy/Errors.antt =====
-- crates/gatepup-proxy/src/proxy.rs: `GatewayError` and the response that it maps to.
use gatepup.Prelude.{ℕ, Bool, true, false, Option, none, some, ◌++◌, Text, codes}
use gatepup.Interfaces.{HttpLib}

pub data GatewayError : Type 0 where
  route_not_found forbidden unauthorized too_many_requests payload_too_large : GatewayError
  upstream_missing no_healthy_upstream upstream_timeout upstream_connect bad_gateway : GatewayError

-- `GatewayError::parts`: the status and the code.
unfoldable pub parts : GatewayError → ℕ × Text
parts route_not_found = (404, codes "route_not_found")
parts forbidden = (403, codes "forbidden")
parts unauthorized = (401, codes "unauthorized")
parts too_many_requests = (429, codes "rate_limited")
parts payload_too_large = (413, codes "payload_too_large")
parts no_healthy_upstream = (503, codes "no_healthy_upstream")
parts upstream_timeout = (504, codes "upstream_timeout")
parts upstream_connect = (502, codes "upstream_connect_error")
parts upstream_missing = (502, codes "bad_gateway")
parts bad_gateway = (502, codes "bad_gateway")

-- `GatewayError::is_client_error`.
unfoldable pub is_client_error : GatewayError → Bool
is_client_error route_not_found = true
is_client_error forbidden = true
is_client_error unauthorized = true
is_client_error too_many_requests = true
is_client_error payload_too_large = true
is_client_error _ = false

pub record Response (Headers : Type 0) : Type 0 where
  pub status : ℕ
  pub headers : Headers
  pub body : Text

module _ {Headers : Type 0} (http : HttpLib Headers) where
  abbrev pub insert_some : Text → Option Text → Headers → Headers
  insert_some n none m = m
  insert_some n (some v) m = http.insert n v m

  abbrev pub extra_header : GatewayError → Headers → Headers
  extra_header too_many_requests m = http.insert (codes "retry-after") (codes "1") m
  extra_header unauthorized m =
      http.insert (codes "www-authenticate") (codes "Basic realm=\"restricted\"") m
  extra_header _ m = m

  -- `error_response`.
  unfoldable pub error_response : GatewayError → Text → Response Headers
  error_response err request_id = record {
    status = (parts err).0;
    headers = extra_header err (
        insert_some (codes "x-request-id") (http.header_value request_id)
          (http.insert (codes "content-type") (codes "application/json") http.empty));
    body = codes "{\"error\":\"" ++ (parts err).1 ++ codes "\"}\n";
  }
