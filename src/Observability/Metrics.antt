-- ===== src/Observability/Metrics.antt =====
-- controlplane/src/observability/metrics.rs. A counter vector has a count for each list of label
-- values, and a histogram vector the number of its observations for each. The crate prometheus counts
-- in `f64`s, which are exact up to 2 ^ 53; the counts here have no bound.
pub mod Class
pub mod Counted
use open_api_gateway.Prelude.{
  ℕ, zero, suc, ◌+◌, String, ◌==◌, Bool, true, false, ◌&&◌, List, [], ◌∷◌, ltb, leb, if◌then◌else◌,
}
use open_api_gateway.Prelude.Text.{decimal, between}
use open_api_gateway.Auth.Types.{ℤ, pos, negsuc}
use open_api_gateway.Envoy.Routes.{same_texts}
use open_api_gateway.ExtAuthz.Events.{
  Event, log, record_request, record_auth_failure, record_rate_limit_allowed,
  record_rate_limit_denied, record_rate_limit_degraded, inc_inflight, dec_inflight, record_overload,
  record_plugin_duration, record_plugin_chain_duration, record_plugin_error,
  record_plugin_short_circuit, execute_log,
}
use open_api_gateway.Xds.Server.{
  XdsMetric, set_xds_snapshot_version, set_xds_connected_envoys, record_xds_push, record_xds_nack,
  record_xds_ack,
}

unfoldable pub status_class : ℕ → String
status_class status =
    if between 100 199 status
    then "1xx"
    else if between 200 299 status
    then "2xx"
    else if between 300 399 status
    then "3xx"
    else if between 400 499 status
    then "4xx"
    else "5xx"

abbrev pub Vector : Type 0
Vector = List (List String × ℕ)

-- `with_label_values(labels).inc()`
unfoldable pub inc : List String → Vector → Vector
unfolding same_texts
inc labels [] = (labels, 1) ∷ []
inc labels ((l, n) ∷ rest) =
    let later = inc labels rest in if same_texts l labels then (l, n + 1) ∷ rest else (l, n) ∷ later

-- `IntGauge::inc` and `dec`
unfoldable pub gauge_inc : ℤ → ℤ
gauge_inc (pos n) = pos (suc n)
gauge_inc (negsuc zero) = pos 0
gauge_inc (negsuc (suc n)) = negsuc n

unfoldable pub gauge_dec : ℤ → ℤ
gauge_dec (pos zero) = negsuc 0
gauge_dec (pos (suc n)) = pos n
gauge_dec (negsuc n) = negsuc (suc n)

pub record MetricsRegistry : Type 0 where
  pub http_requests_total : Vector
  pub http_request_duration_ms : Vector
  pub auth_failures_total : Vector
  pub rate_limit_allowed_total : Vector
  pub rate_limit_denied_total : Vector
  pub rate_limit_degraded_total : Vector
  pub upstream_failures_total : Vector
  pub config_reload_total : Vector
  pub inflight_requests : ℤ
  pub overload_total : ℕ
  pub plugin_duration_us : Vector
  pub plugin_errors_total : Vector
  pub plugin_chain_duration_us : Vector
  pub plugin_short_circuits_total : Vector
  pub xds_connected_envoys : ℕ
  pub xds_acks_total : ℕ
  pub xds_nacks_total : ℕ
  pub xds_snapshot_version : ℕ
  pub xds_push_duration_seconds : ℕ

-- `MetricsRegistry::new`, where every metric can be registered
unfoldable pub new_registry : MetricsRegistry
new_registry = record {
  http_requests_total = [];
  http_request_duration_ms = [];
  auth_failures_total = [];
  rate_limit_allowed_total = [];
  rate_limit_denied_total = [];
  rate_limit_degraded_total = [];
  upstream_failures_total = [];
  config_reload_total = [];
  inflight_requests = pos 0;
  overload_total = 0;
  plugin_duration_us = [];
  plugin_errors_total = [];
  plugin_chain_duration_us = [];
  plugin_short_circuits_total = [];
  xds_connected_envoys = 0;
  xds_acks_total = 0;
  xds_nacks_total = 0;
  xds_snapshot_version = 0;
  xds_push_duration_seconds = 0;
}

unfoldable pub record_upstream_failure :
    (route service reason : String) → MetricsRegistry → MetricsRegistry
unfolding inc
record_upstream_failure route service reason m = record m {
  upstream_failures_total = inc (route ∷ service ∷ reason ∷ []) m.upstream_failures_total;
}

unfoldable pub record_config_reload : (result : String) → MetricsRegistry → MetricsRegistry
unfolding inc
record_config_reload result m = record m {
  config_reload_total = inc (result ∷ []) m.config_reload_total;
}

-- The calls of the check service, by the events that it leaves.
unfoldable pub record_event : Event → MetricsRegistry → MetricsRegistry
unfolding inc status_class gauge_inc gauge_dec decimal
record_event (log entry) m = m
record_event (record_request route method status) m = record m {
  http_requests_total = inc (route ∷ method ∷ status_class status ∷ []) m.http_requests_total;
  http_request_duration_ms = inc (route ∷ []) m.http_request_duration_ms;
}
record_event (record_auth_failure route reason) m = record m {
  auth_failures_total = inc (route ∷ reason ∷ []) m.auth_failures_total;
}
record_event (record_rate_limit_allowed route) m = record m {
  rate_limit_allowed_total = inc (route ∷ []) m.rate_limit_allowed_total;
}
record_event (record_rate_limit_denied route) m = record m {
  rate_limit_denied_total = inc (route ∷ []) m.rate_limit_denied_total;
}
record_event (record_rate_limit_degraded route) m = record m {
  rate_limit_degraded_total = inc (route ∷ []) m.rate_limit_degraded_total;
}
record_event inc_inflight m = record m { inflight_requests = gauge_inc m.inflight_requests }
record_event dec_inflight m = record m { inflight_requests = gauge_dec m.inflight_requests }
record_event record_overload m = record m { overload_total = m.overload_total + 1 }
record_event (record_plugin_duration plugin route phase duration_us) m = record m {
  plugin_duration_us = inc (plugin ∷ route ∷ phase ∷ []) m.plugin_duration_us;
}
record_event (record_plugin_chain_duration route duration_us) m = record m {
  plugin_chain_duration_us = inc (route ∷ []) m.plugin_chain_duration_us;
}
record_event (record_plugin_error plugin route error_type) m = record m {
  plugin_errors_total = inc (plugin ∷ route ∷ error_type ∷ []) m.plugin_errors_total;
}
record_event (record_plugin_short_circuit plugin route status) m = record m {
  plugin_short_circuits_total =
      inc (plugin ∷ route ∷ decimal status ∷ []) m.plugin_short_circuits_total;
}
record_event (execute_log status) m = m

-- The calls of the control plane.
unfoldable pub record_xds : XdsMetric → MetricsRegistry → MetricsRegistry
record_xds (set_xds_snapshot_version version) m = record m { xds_snapshot_version = version }
record_xds (set_xds_connected_envoys count) m = record m { xds_connected_envoys = count }
record_xds record_xds_push m = record m {
  xds_push_duration_seconds = m.xds_push_duration_seconds + 1;
}
record_xds record_xds_nack m = record m { xds_nacks_total = m.xds_nacks_total + 1 }
record_xds record_xds_ack m = record m { xds_acks_total = m.xds_acks_total + 1 }

-- The events of a request, in their order.
unfoldable pub record_all : List Event → MetricsRegistry → MetricsRegistry
unfolding record_event
record_all [] m = m
record_all (e ∷ events) m = record_all events (record_event e m)
