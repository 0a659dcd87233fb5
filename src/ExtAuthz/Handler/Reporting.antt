-- ===== src/ExtAuthz/Handler/Reporting.antt =====
-- The metrics and log entries that the steps of controlplane/src/extauthz/ leave of a request.
use open_api_gateway.Prelude.{
  ℕ, String, true, Option, none, some, List, [], ◌∷◌, ◌++◌, ◌≡◌, refl, ap, ◌∙◌,
}
use open_api_gateway.Prelude.Result.{Result, ok, err}
use open_api_gateway.Config.Types.{Platform, RouteConfig}
use open_api_gateway.ExtAuthz.Headers.{Http, HeaderMap, Response}
use open_api_gateway.ExtAuthz.Events.{
  Event, log, record_request, PluginRequest, PluginAccessResult, continue, short_circuit, error,
}
use open_api_gateway.ExtAuthz.PluginStep.{
  PluginEngine, Meta, execute_access_plugins, plugin_outcome, plugin_request, run_plugin_log,
  finish_events,
}

-- The statuses of the request metrics.
abbrev pub recorded : List Event → List ℕ
recorded [] = []
recorded (record_request route method status ∷ events) = status ∷ recorded events
recorded (_ ∷ events) = recorded events

-- The statuses of the access log entries.
abbrev pub logged : List Event → List ℕ
logged [] = []
logged (log entry ∷ events) = entry.status ∷ logged events
logged (_ ∷ events) = logged events

abbrev pub IsQuiet : List Event → Type 0
IsQuiet events = (recorded events ≡ []) × (logged events ≡ [])

-- One metric and one log entry, both with the status.
abbrev pub Reports : ℕ → List Event → Type 0
Reports status events = (recorded events ≡ status ∷ []) × (logged events ≡ status ∷ [])

recorded-append : (xs ys : List Event) → recorded (xs ++ ys) ≡ recorded xs ++ recorded ys
recorded-append [] ys = refl
recorded-append (record_request _ _ status ∷ xs) ys = ap (◌∷◌ status) (recorded-append xs ys)
recorded-append (_ ∷ xs) ys = recorded-append xs ys

logged-append : (xs ys : List Event) → logged (xs ++ ys) ≡ logged xs ++ logged ys
logged-append [] ys = refl
logged-append (log entry ∷ xs) ys = ap (◌∷◌ entry.status) (logged-append xs ys)
logged-append (_ ∷ xs) ys = logged-append xs ys

pub Reports-after :
    (status : ℕ) (before events : List Event)
    → IsQuiet before
    → Reports status events
    → Reports status (before ++ events)
Reports-after status before events (q, r) (s, t) = (
  recorded-append before events ∙ ap (λ x. x ++ recorded events) q ∙ s,
  logged-append before events ∙ ap (λ x. x ++ logged events) r ∙ t,
)

pub Reports-before :
    (status : ℕ) (events after : List Event)
    → Reports status events
    → IsQuiet after
    → Reports status (events ++ after)
Reports-before status events after (s, t) (q, r) =
    (recorded-append events after ∙ rw (s, q) refl, logged-append events after ∙ rw (t, r) refl)

pub run_plugin_log-IsQuiet :
    (engine : PluginEngine) (status : ℕ) → IsQuiet (run_plugin_log engine status)
unfolding run_plugin_log
run_plugin_log-IsQuiet none status = (refl, refl)
run_plugin_log-IsQuiet (some engine) status = (refl, refl)

module _ {p : Platform} where
  pub finish_events-Reports :
      (meta : Meta) (route : RouteConfig p) (status : ℕ) (subject : Option String) (mode : String)
      (after : List Event)
      → IsQuiet after
      → Reports status (finish_events meta route status subject mode after)
  unfolding finish_events
  finish_events-Reports meta route status subject mode after (q, r) =
      (ap (◌∷◌ status) q, ap (◌∷◌ status) r)

module _ (h : Http) where
  -- The plugin engine answers, and ends a request only with the status of an HTTP response.
  abbrev pub IsAnswer : Result String PluginAccessResult → Type 0
  IsAnswer (ok (short_circuit name status body headers us)) = h.is_status status ≡ true
  IsAnswer (ok _) = Unit
  IsAnswer (err _) = ⊥

  abbrev pub IsReliable : PluginEngine → Type 0
  IsReliable none = Unit
  IsReliable (some engine) = (request : PluginRequest) → IsAnswer (engine request)

  -- A step that ends the request has reported it, and one that goes on has not.
  abbrev pub Reported {κ} : {A : Type κ} → List Event → Result (Response h) A → Type 0
  Reported events (ok a) = IsQuiet events
  Reported events (err response) = Reports response.status events

  plugin_outcome-Reported :
      {p : Platform} (engine : PluginEngine) (route : RouteConfig p) (meta : Meta)
      (headers : HeaderMap h) (r : Result String PluginAccessResult)
      → IsAnswer r
      → Reported
          (plugin_outcome h engine route meta headers r).0
          (plugin_outcome h engine route meta headers r).1
  unfolding plugin_outcome
  plugin_outcome-Reported engine route meta headers (ok (continue _ _ us)) a = (refl, refl)
  plugin_outcome-Reported engine route meta headers (ok (short_circuit name status body hs us)) a =
      rw a (
        finish_events-Reports meta route status none "plugin-short-circuit"
          (run_plugin_log engine status) (run_plugin_log-IsQuiet engine status))
  plugin_outcome-Reported engine route meta headers (ok (error name message kind us)) a =
      finish_events-Reports meta route 500 none "plugin-error" (run_plugin_log engine 500)
        (run_plugin_log-IsQuiet engine 500)
  plugin_outcome-Reported engine route meta headers (err _) a = absurd a

  pub execute_access_plugins-Reported :
      {p : Platform} (engine : PluginEngine) (route : RouteConfig p) (meta : Meta)
      (headers response_headers : HeaderMap h)
      → IsReliable engine
      → Reported
          (execute_access_plugins h engine route meta headers response_headers).0
          (execute_access_plugins h engine route meta headers response_headers).1
  unfolding execute_access_plugins
  execute_access_plugins-Reported none route meta headers response_headers reliable = (refl, refl)
  execute_access_plugins-Reported (some engine) route meta headers response_headers reliable =
      plugin_outcome-Reported (some engine) route meta response_headers _
        (reliable (plugin_request h route meta headers))
