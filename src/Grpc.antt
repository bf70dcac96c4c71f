-- ===== src/Grpc.antt =====
-- Calls between the services: the map of connections, the namespaces of the services, dialling, and
-- the client's retry.
pub mod World
pub mod Dial
pub mod Retry
pub mod Routes
pub mod Attempts
pub mod Refusals
pub mod Relation
pub mod Returning
pub mod Clients
