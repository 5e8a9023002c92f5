-- ===== src/Router.antt =====
-- core/router: the gateways' side of the network.
pub mod Schedule
pub mod Options
