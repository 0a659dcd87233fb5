-- ===== src/ExtAuthz.antt =====
-- controlplane/src/extauthz: the check service that Envoy asks about each request.
pub mod RouteMatch
pub mod Headers
pub mod Events
pub mod AuthStep
pub mod PluginStep
pub mod LimitStep
pub mod Handler
