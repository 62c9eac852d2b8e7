-- ===== src/Tests.antt =====
-- Runs of the model at concrete inputs.
mod Lab
mod Things
mod Servients
mod Lifecycles
mod Exposings
mod Messages
mod Handlers
mod Brokers
mod Subscribers
mod Clients
mod Requests
