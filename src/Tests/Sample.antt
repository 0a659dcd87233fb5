-- ===== src/Tests/Sample.antt =====
-- A configuration, a request and stand-ins for the program's third-party code, to run the models on.
use text.Mathlib.Text.{starts_with}
use open_api_gateway.Prelude.{
  ℕ, ◌+◌, ◌-◌, ◌*◌, ◌/◌, String, ◌<>◌, Bool, true, false, if◌then◌else◌, none, some, [], ◌∷◌, map,
  leb, ltb,
}
use open_api_gateway.Prelude.Text.{join, decimal}
use open_api_gateway.Prelude.Result.{ok}
use open_api_gateway.Config.Types.{
  Platform, AuthProvider, RateLimitsConfig, RouteConfig, GatewayConfig,
}
use open_api_gateway.Auth.Types.{Jwt, JwksKey, JwksDocument, Claims, rs256, single, pos}
use open_api_gateway.Auth.Cache.{JwksCache}
use open_api_gateway.RateLimit.{RateLimiter, World, answered}
use open_api_gateway.ExtAuthz.Headers.{Http, HeaderMap}
use open_api_gateway.ExtAuthz.Events.{Env}

-- Whole numbers for floats, and the text of a value for the value.
abbrev pub platform : Platform
platform = record {
  F64 = ℕ;
  of_u64 = λ n. n;
  le = leb;
  lt = ltb;
  add = λ a b. a + b;
  sub = λ a b. a - b;
  mul = λ a b. a * b;
  div = λ a b. a / b;
  min = λ a b. if leb a b then a else b;
  floor = λ n. n;
  ceil = λ n. n;
  as_secs = λ n. n / 1000000000;
  Value = String;
  string = λ s. s;
  bool = λ b. if b then "true" else "false";
  number = decimal;
  sequence = λ items. "[" <> join ", " items <> "]";
  mapping =
      λ entries. "{" <> join ", " (map (λ (name, value). name <> ": " <> value) entries) <> "}";
  to_yaml = λ text. some text;
  is_url = λ s. starts_with s "https://";
}

abbrev pub provider : AuthProvider
provider = record {
  name = "main";
  issuer = "https://issuer";
  audience = "api";
  jwks_uri = "https://issuer/keys";
  cache_ttl_seconds = 300;
  clock_skew_seconds = 5;
}

abbrev pub orders : RouteConfig platform
orders = record {
  name = "orders";
  hostnames = "shop" ∷ "api" ∷ [];
  path_prefix = "/orders";
  methods = "GET" ∷ [];
  auth_required = true;
  auth_provider = some "main";
  required_scopes = some ("read" ∷ []);
  rate_limit = record { bucket_capacity = 5; refill_rate_per_sec = 1; key_by = "sub" };
  upstream = record { service = "backend"; request_timeout_ms = 1500; retries = 2 };
  plugins = [];
}

abbrev pub home : RouteConfig platform
home = record {
  name = "home";
  hostnames = "api" ∷ "shop" ∷ [];
  path_prefix = "/";
  methods = "GET" ∷ [];
  auth_required = false;
  auth_provider = none;
  required_scopes = none;
  rate_limit = record { bucket_capacity = 9; refill_rate_per_sec = 1; key_by = "ip" };
  upstream = record { service = "backend"; request_timeout_ms = 1000; retries = 0 };
  plugins = [];
}

abbrev pub rate_limits : RateLimitsConfig platform
rate_limits = record {
  redis_address = "redis:6379";
  redis_db = 0;
  redis_key_prefix = "gw";
  default_timeout_ms = 50;
  fail_open = false;
  survivability_mode = record {
    enabled = true;
    fallback_capacity = 2;
    fallback_refill_rate_per_sec = 1;
  };
}

abbrev pub config : GatewayConfig platform
config = record {
  version = 1;
  gateway = record {
    listen_address = "0.0.0.0:8080";
    admin_address = "127.0.0.1:9901";
    request_timeout_ms = 1000;
    idle_timeout_ms = 60000;
    max_request_body_bytes = 1024;
    trust_forwarded_headers = false;
    extauthz_address = some "127.0.0.1:9191";
    max_concurrent_requests = none;
  };
  auth = record { providers = provider ∷ [] };
  rate_limits = rate_limits;
  routes = home ∷ orders ∷ [];
  services =
      record {
        name = "backend";
        endpoints = "10.0.0.1:80" ∷ [];
        health_check = record { path = "/health"; interval_ms = 1000; timeout_ms = 500 };
      }
      ∷ [];
  observability = record {
    access_log_json = true;
    prometheus_enabled = true;
    tracing = record { enabled = false; otlp_endpoint = ""; sample_rate = 1 };
  };
  plugins = record {
    enabled = false;
    directory = "";
    limits = record { max_memory_bytes = 0; max_instructions = 0; chain_timeout_ms = 0 };
    global = [];
  };
  xds = record { enabled = false; listen_address = "" };
  ext_proc = record { enabled = false; listen_address = "" };
}

abbrev pub claims : Claims
claims = record {
  sub = some "alice";
  iss = some "https://issuer";
  aud = single "api";
  exp = some (pos 100);
  nbf = none;
  scope = none;
  scp = some ("read" ∷ "write" ∷ []);
}

-- Every token is signed, and its text is the identifier of its key.
abbrev pub jwt : Jwt
jwt = record {
  DecodingKey = String;
  from_rsa_components = λ n e. ok n;
  decode_header = λ token. some record { alg = rs256; kid = some token };
  decode = λ token key validation. ok claims;
  split_whitespace = λ s. s ∷ [];
}

abbrev pub key : String → JwksKey jwt
key kid = record { kid = kid; decoding_key = "modulus" }

abbrev pub cache : JwksCache jwt
cache = record { provider = provider; keys = key "k1" ∷ []; fetched_at = 0 }

abbrev pub document : JwksDocument
document = record {
  keys =
      record { kid = "ec"; kty = "EC"; alg = none; n = ""; e = "" }
      ∷ record { kid = "k1"; kty = "RSA"; alg = none; n = "modulus"; e = "AQAB" }
      ∷ [];
}

abbrev pub http : Http
http = record {
  HeaderValue = String;
  parse_value = λ s. some s;
  to_str = λ s. some s;
  parse_name = λ s. some s;
  is_status = λ n. leb 100 n;
}

-- Redis grants every token.
abbrev pub world : World platform
world = record {
  script = λ call. answered "granted";
  now_ms = 0;
  now = 0;
  parse_response = λ s. ok record { allowed = 1; remaining_tokens = 4; retry_after_ms = 0 };
}

abbrev pub limiter : Bool → RateLimiter platform
limiter connected = record { config = rate_limits; connected = connected; fallback = [] }

abbrev pub env : Env platform jwt
env = record {
  config = config;
  now = 0;
  caches = cache ∷ [];
  refreshed = λ name. [];
  execute_access = none;
  world = world;
  now_secs = 0;
}

abbrev pub headers : HeaderMap http
headers = ("host", "shop") ∷ ("authorization", "Bearer k1") ∷ []
