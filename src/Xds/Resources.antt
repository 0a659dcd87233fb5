-- ===== src/Xds/Resources.antt =====
-- controlplane/src/xds/resources.rs: the protobuf messages that Envoy is configured with. Encoding a
-- message is the crate prost's, and a message type has the fields that the program sets.
pub mod Hosts
pub mod Valid
use Prim.Native.Nat.{Ordering}
use Prim.Native.String
use mathlib.Core.Option
use open_api_gateway.Prelude.{
  ℕ, ◌*◌, ◌/◌, ◌%◌, String, ◌<>◌, Bool, true, false, Option, none, some, List, [], ◌∷◌, ◌++◌, ltb,
  if◌then◌else◌,
}
use open_api_gateway.Prelude.Result.{Result, ok, err, ◌>>=◌}
use open_api_gateway.Prelude.Text.{rsplit_colon, parse_u16, is_empty_text}
use open_api_gateway.Config.Types.{Platform, RouteConfig, ServiceConfig, GatewayConfig}
use open_api_gateway.Envoy.Routes.{sort}
use open_api_gateway.Xds.Snapshot.{
  cluster_type_url, endpoint_type_url, listener_type_url, route_type_url,
}

pub data ResourceError : Type 0 where
  invalid_endpoint : String → ResourceError
  encode : String → ResourceError

unfoldable pub resource_error_text : ResourceError → String
resource_error_text (invalid_endpoint e) = "invalid endpoint format '" <> (e <> "'")
resource_error_text (encode reason) = "failed to encode xDS resource: " <> reason

pub record Duration : Type 0 where
  pub seconds : ℕ
  pub nanos : ℕ

pub record SocketAddress : Type 0 where
  pub address : String
  pub port_value : ℕ

pub record RetryPolicy : Type 0 where
  pub retry_on : String
  pub num_retries : ℕ

-- A route: its match's prefix, and its action.
pub record Route : Type 0 where
  pub prefix : String
  pub cluster : String
  pub timeout : Duration
  pub retry_policy : Option RetryPolicy

pub record VirtualHost : Type 0 where
  pub name : String
  pub domains : List String
  pub routes : List Route

pub record HealthCheck : Type 0 where
  pub timeout : Duration
  pub interval : Duration
  pub path : String
  pub unhealthy_threshold : ℕ
  pub healthy_threshold : ℕ

-- The assignment has one locality, with these endpoints.
pub record ClusterLoadAssignment : Type 0 where
  pub cluster_name : String
  pub lb_endpoints : List SocketAddress

pub record Cluster : Type 0 where
  pub name : String
  pub type_name : String
  pub lb_policy : String
  pub connect_timeout : Duration
  pub load_assignment : ClusterLoadAssignment
  pub health_checks : List HealthCheck

-- `duration`: the casts lose nothing, as Resources/Valid shows
unfoldable pub duration : ℕ → Duration
duration ms = record { seconds = ms / 1000; nanos = (ms % 1000) * 1000000 }

abbrev pub ok_or {ℓ} : {A : Type ℓ} → Option A → ResourceError → Result ResourceError A
ok_or none e = err e
ok_or (some a) e = ok a

unfoldable pub parse_endpoint : String → Result ResourceError (String × ℕ)
parse_endpoint endpoint = do
  (host, port_str) ← ok_or (rsplit_colon endpoint) (invalid_endpoint endpoint)
  port ← ok_or (parse_u16 port_str) (invalid_endpoint endpoint)
  if is_empty_text host then err (invalid_endpoint endpoint) else ok (host, port)

unfoldable pub socket_address : String → ℕ → SocketAddress
socket_address host port = record { address = host; port_value = port }

-- `collect` of results
unfoldable pub collect {ℓ κ} :
    {A : Type ℓ} {B : Type κ}
    → (A → Result ResourceError B)
    → List A
    → Result ResourceError (List B)
collect f [] = ok []
collect f (x ∷ xs) = do y ← f x; ys ← collect f xs; ok (y ∷ ys)

unfoldable pub endpoint_address : String → Result ResourceError SocketAddress
unfolding parse_endpoint socket_address
endpoint_address endpoint =
    parse_endpoint endpoint >>= λ (host, port). ok (socket_address host port)

unfoldable pub build_cluster_assignment : ServiceConfig → Result ResourceError ClusterLoadAssignment
unfolding collect endpoint_address
build_cluster_assignment service = collect endpoint_address service.endpoints >>= λ endpoints.
    ok record { cluster_name = service.name; lb_endpoints = endpoints }

-- The order of `Vec<String>`.
unfoldable pub compare_keys : List String → List String → Ordering
compare_keys [] [] = Ordering.eq
compare_keys [] (t ∷ ts) = Ordering.lt
compare_keys (s ∷ ss) [] = Ordering.gt
compare_keys (s ∷ ss) (t ∷ ts) = String.then (String.compare s t) (compare_keys ss ts)

-- `BTreeMap::entry`: the value of the key is made from the one that is there, if any.
unfoldable pub entry {ℓ} :
    {V : Type ℓ} → (Option V → V) → List String → List (List String × V) → List (List String × V)
unfolding compare_keys
entry f key [] = (key, f none) ∷ []
entry f key ((k, v) ∷ rest) = elim (compare_keys key k) [
  | Ordering.lt ↦ (key, f none) ∷ (k, v) ∷ rest
  | Ordering.eq ↦ (k, f (some v)) ∷ rest
  | Ordering.gt ↦ (k, v) ∷ entry f key rest
]

-- `or_default().push(x)` and `or_insert_with(|| x)`
abbrev pub push {ℓ} : {A : Type ℓ} → A → Option (List A) → List A
push x none = x ∷ []
push x (some xs) = xs ++ x ∷ []

abbrev pub or_insert {ℓ} : {A : Type ℓ} → A → Option A → A
or_insert x none = x
or_insert x (some y) = y

-- `BTreeMap::get`
unfoldable pub get_key {ℓ} : {V : Type ℓ} → List String → List (List String × V) → Option V
unfolding compare_keys
get_key key [] = none
get_key key ((k, v) ∷ rest) = elim (compare_keys key k) [
  | Ordering.eq ↦ some v
  | _ ↦ get_key key rest
]

unfoldable pub name_or : Option String → String
name_or none = "vhost"
name_or (some name) = name

unfoldable pub host_of : List (List String × String) → List String × List Route → VirtualHost
unfolding get_key name_or
host_of names (domains, routes) = record {
  name = name_or (get_key domains names);
  domains = domains;
  routes = routes;
}

unfoldable pub hosts_of :
    List (List String × String) → List (List String × List Route) → List VirtualHost
unfolding host_of
hosts_of names [] = []
hosts_of names (g ∷ groups) = host_of names g ∷ hosts_of names groups

module _ {p : Platform} where
  unfoldable pub route_entry : RouteConfig p → Route
  unfolding duration
  route_entry route = record {
    prefix = route.path_prefix;
    cluster = route.upstream.service;
    timeout = duration route.upstream.request_timeout_ms;
    retry_policy =
        if ltb 0 route.upstream.retries
        then some record { retry_on = "5xx,connect-failure"; num_retries = route.upstream.retries }
        else none;
  }

  -- The loop's two maps.
  unfoldable pub group_hosts :
      List (List String × List Route)
      → List (List String × String)
      → List (RouteConfig p)
      → List (List String × List Route) × List (List String × String)
  unfolding entry sort route_entry
  group_hosts groups names [] = (groups, names)
  group_hosts groups names (r ∷ routes) =
      group_hosts (entry (push (route_entry r)) (sort r.hostnames) groups)
        (entry (or_insert r.name) (sort r.hostnames) names) routes

  unfoldable pub build_virtual_hosts : List (RouteConfig p) → List VirtualHost
  unfolding group_hosts hosts_of
  build_virtual_hosts routes =
      let (groups, names) = group_hosts [] [] routes in hosts_of names groups
