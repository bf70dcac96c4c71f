-- ===== src/Tests.antt =====
-- Runs of the model at concrete inputs: for every theorem with hypotheses, one input that meets them.
mod Calls
mod Configurations
mod Subscriptions
mod Spans
mod Logs
mod Helpers
mod Brokers
mod Servers
mod Profilers
mod Clients
mod Gateways
mod Visits
