-- ===== src/Observability/Metrics/Counted.antt =====
-- What a request adds to the counters.
use open_api_gateway.Prelude.{
  ◌≤◌, ◌<◌, ◌/◌, eqb, ℕ, ◌+◌, String, ◌==◌, Bool, true, false, List, [], ◌∷◌, ◌≡◌, refl, ap, arith,
  Bool-cases, inl, inr, if◌then◌else◌,
}
use open_api_gateway.Config.Types.{Platform}
use open_api_gateway.Auth.Types.{Jwt}
use open_api_gateway.RateLimit.{RateLimiter}
use open_api_gateway.Envoy.Routes.{same_texts}
use open_api_gateway.Envoy.Routes.Entries.{same_texts_iff}
use open_api_gateway.ExtAuthz.Headers.{Http, HeaderMap}
use open_api_gateway.ExtAuthz.Events.{
  Event, Env, log, record_request, record_auth_failure, record_rate_limit_allowed,
  record_rate_limit_denied, record_rate_limit_degraded, inc_inflight, dec_inflight, record_overload,
  record_plugin_duration, record_plugin_chain_duration, record_plugin_error,
  record_plugin_short_circuit, execute_log,
}
use open_api_gateway.ExtAuthz.Handler.{check}
use open_api_gateway.ExtAuthz.Handler.Reporting.{recorded, IsReliable}
use open_api_gateway.ExtAuthz.Handler.Counted.{check-Reports}
use open_api_gateway.Observability.Metrics.Class.{class_text, status_class-digit}
use open_api_gateway.Observability.Metrics.{
  Vector, inc, MetricsRegistry, record_event, record_all, status_class,
}

-- The third label: the status class of a request.
abbrev class_of : List String → String
class_of (route ∷ method ∷ class ∷ labels) = class
class_of _ = ""

-- The requests that a vector has counted in a class.
abbrev pub in_class : String → Vector → ℕ
in_class class [] = 0
in_class class ((labels, n) ∷ rest) =
    (if class_of labels == class then n else 0) + in_class class rest

abbrev pub one_if : Bool → ℕ
one_if true = 1
one_if false = 0

in_class-inc :
    (class : String) (labels : List String) (v : Vector)
    → in_class class (inc labels v) ≡ in_class class v + one_if (class_of labels == class)
unfolding inc
in_class-inc class labels [] = elim (Bool-cases (class_of labels == class)) [
  | inl e ↦ rw e refl
  | inr e ↦ rw e refl
]
in_class-inc class labels ((l, n) ∷ rest) = elim (Bool-cases (same_texts l labels)) [
  | inl same ↦ rw same (
      rw ((same_texts_iff l labels).0 same) (elim (Bool-cases (class_of labels == class)) [
        | inl e ↦ rw e (omega arith)
        | inr e ↦ rw e (omega arith)
      ]))
  | inr other ↦ rw other (omega (arith, in_class-inc class labels rest))
]

-- The statuses of a list that are of the class.
abbrev of_class : String → List ℕ → ℕ
of_class class [] = 0
of_class class (s ∷ statuses) = one_if (status_class s == class) + of_class class statuses

record_all-in_class :
    (class : String) (events : List Event) (m : MetricsRegistry)
    → in_class class (record_all events m).http_requests_total
      ≡ in_class class m.http_requests_total + of_class class (recorded events)
unfolding record_all record_event
record_all-in_class class [] m = omega arith
record_all-in_class class (record_request route method status ∷ events) m = omega (
  arith,
  record_all-in_class class events (record_event (record_request route method status) m),
  in_class-inc class (route ∷ method ∷ status_class status ∷ []) m.http_requests_total,
)
record_all-in_class class (log entry ∷ events) m = record_all-in_class class events m
record_all-in_class class (record_auth_failure a b ∷ events) m =
    record_all-in_class class events (record_event (record_auth_failure a b) m)
record_all-in_class class (record_rate_limit_allowed a ∷ events) m =
    record_all-in_class class events (record_event (record_rate_limit_allowed a) m)
record_all-in_class class (record_rate_limit_denied a ∷ events) m =
    record_all-in_class class events (record_event (record_rate_limit_denied a) m)
record_all-in_class class (record_rate_limit_degraded a ∷ events) m =
    record_all-in_class class events (record_event (record_rate_limit_degraded a) m)
record_all-in_class class (inc_inflight ∷ events) m =
    record_all-in_class class events (record_event inc_inflight m)
record_all-in_class class (dec_inflight ∷ events) m =
    record_all-in_class class events (record_event dec_inflight m)
record_all-in_class class (record_overload ∷ events) m =
    record_all-in_class class events (record_event record_overload m)
record_all-in_class class (record_plugin_duration a b c d ∷ events) m =
    record_all-in_class class events (record_event (record_plugin_duration a b c d) m)
record_all-in_class class (record_plugin_chain_duration a b ∷ events) m =
    record_all-in_class class events (record_event (record_plugin_chain_duration a b) m)
record_all-in_class class (record_plugin_error a b c ∷ events) m =
    record_all-in_class class events (record_event (record_plugin_error a b c) m)
record_all-in_class class (record_plugin_short_circuit a b c ∷ events) m =
    record_all-in_class class events (record_event (record_plugin_short_circuit a b c) m)
record_all-in_class class (execute_log status ∷ events) m = record_all-in_class class events m

-- With a plugin engine that answers and ends requests with HTTP statuses, a request that has a permit
-- and is answered with a status from 100 to 599 adds one to the requests counted under the class
-- "dxx" of the first digit d of its status, and none to the other four classes.
pub check-in_class :
    {p : Platform} {j : Jwt} (h : Http) (env : Env p j) (limiter : RateLimiter p)
    (headers : HeaderMap h) (method path request_id : String) (m : MetricsRegistry) (digit : ℕ)
    → IsReliable h env.execute_access
    → 1 ≤ digit
    → digit ≤ 5
    → 100 ≤ (check h true env limiter headers method path request_id).response.status
    → (check h true env limiter headers method path request_id).response.status < 600
    → let outcome = check h true env limiter headers method path request_id in
      in_class (class_text digit) (record_all outcome.events m).http_requests_total
      ≡ in_class (class_text digit) m.http_requests_total
        + one_if (eqb (outcome.response.status / 100) digit)
check-in_class h env limiter headers method path request_id m digit reliable least most from below =
    let outcome = check h true env limiter headers method path request_id in
    let class = class_text digit in
    let one = (check-Reports h env limiter headers method path request_id reliable).0 in
    let counted = ap (of_class class) one in
    let same = status_class-digit outcome.response.status digit from below least most in
    omega (arith, record_all-in_class class outcome.events m, counted, ap one_if same)
