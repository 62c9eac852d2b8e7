-- ===== src/Mqtt.antt =====
-- wotpy/protocols/mqtt: the topics, the handlers behind the server, their runner and the client.
pub mod Client
pub mod Awaiting
pub mod Requests
pub mod Topics
pub mod Handlers
pub mod Subscriber
