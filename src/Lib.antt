-- ===== src/Lib.antt =====
-- Verification of the core of WoTPy, a Web of Things runtime in Python.
--
-- The program. A Servient (wotpy/wot/servient.py) holds ExposedThings, the protocol servers that
-- serve them and the clients. An ExposedThing (wotpy/wot/exposed/thing.py) wraps a Thing
-- (wotpy/wot/thing.py) with the values of its properties, the handlers of the application and the
-- stream of the events that it emits. A Thing holds the interactions (wotpy/wot/interaction.py), and
-- an interaction the forms (wotpy/wot/form.py) by which it can be reached. Whenever the servient
-- enables or disables an ExposedThing, each server (wotpy/protocols/*/server.py) gets or loses it
-- and the forms of its protocol are generated anew. WebSockets peers exchange the JSON-RPC messages
-- of wotpy/protocols/ws/messages.py; MQTT peers exchange messages over a broker, on topics that the
-- handlers of wotpy/protocols/mqtt/handlers and the client of wotpy/protocols/mqtt/client.py share. The
-- requests of a client to one URL or broker share a connection, which the client opens with the first
-- reference to it and closes with the last one.
--
-- The files. Each module's children hold the theorems about it.
--   Prelude: lists, dictionaries, exceptions and loops of Python, and the names of the libraries.
--   Platform: what is taken from other packages and from the runtime, as a record of functions.
--   Validation: `is_valid_safe_name` of wotpy/wot/validation.py.
--   Interaction: InteractionPattern and Form. An object's identity is a number.
--   Thing: Thing with its three dictionaries, its constructor, lookup, addition and removal.
--   ThingSet: ExposedThingSet of wotpy/wot/exposed/thing_set.py. ExposedThings stand for their
--     Things, which a heap holds by identity, so that servers and servient share them.
--   Server: the four server classes: their ExposedThings, the forms and the base URLs they build.
--   Servient: Servient. Its operations take the state to the new state and the exception, if one
--     was raised, since what was written before a raise stays written.
--   Servient/Regenerate: the forms that a generation leaves. Servient/Consistent: what the servers
--     serve against what is enabled. Servient/Guards: the operations that only a stopped servient
--     allows. Servient/Lifecycle: `start` and `shutdown`.
--   Exposed: ExposedThing, the events of wotpy/wot/events.py and the lookup of
--     wotpy/wot/exposed/interaction_map.py. Exposed/WellFormed, Steps and Operations: the invariant.
--     Exposed/Values and Reading: reads and writes. Exposed/Streams: subscriptions. Exposed/Names:
--     the names of the proxies. Exposed/Proxies: the calls that the proxies forward.
--   Json: JSON values. Ws/Schemas and Ws/Messages: the schemas, the four classes of messages and
--     the parser. Ws/RoundTrip: the parser against the printer. Ws/Handler: the handler of one
--     connection (wotpy/protocols/ws/handler.py), with its subscriptions and what it sent.
--   Ws/Client: WebsocketClient of wotpy/protocols/ws/client.py, as the functions between the yields of a
--     coroutine. Ws/Client/Steps: the requests of one client side by side, as a step relation.
--     Ws/Client/Kept, Stored and Answered: what is received. Ws/Client/Supported, Effects,
--     Preserved and Lasting: what each request relies on. Ws/Client/Unanswered and Lost: an answer that
--     comes early.
--   Mqtt/Topics: the topics. Mqtt/Handlers: the handlers of property requests and of invocations
--     (wotpy/protocols/mqtt/handlers/property.py and action.py). Mqtt/Subscriber:
--     InteractionsSubscriber of wotpy/protocols/mqtt/handlers/subs.py.
--   Mqtt/Client: the queues and connections of MQTTClient (wotpy/protocols/mqtt/client.py), with
--     children on each. Mqtt/Awaiting and Requests: the requests `invoke_action` (invoke_remote),
--     `write_property` (write_remote) and `read_property` (read_remote).
--   Choice: `pick_form` and `is_scheme_form` of wotpy/protocols/utils.py, the links and forms that they
--     read (wotpy/wot/dictionaries/link.py, wotpy/wot/td.py), and `_default_select_client` of
--     wotpy/wot/servient.py.
--   Refs: ConnRefCounter of wotpy/protocols/refs.py, which counts the references to connections.
--   Tests: concrete inputs on which the theorems apply.
--
-- Choices. All loops run over finite lists or dictionaries and are structural recursions, so no fuel
-- is needed. The loop in which an MQTT request awaits its answer runs over the list of its wakes: for
-- each, what was delivered before the coroutine went on, and the time; the request is pending where
-- the list ends before it. Requests of the WebSockets client run in every interleaving. Numbers are unbounded, as in Python. A coroutine of another package enters by its
-- outcome, and a handler of the application by the result of its call; that a handler may itself
-- call the ExposedThing is left out. Of an interaction's fragment only the flags that the program
-- branches on are kept. Messages of exceptions are left out. `slugify`, `hash`, the UUID of an ID
-- and jsonschema's `validate` are parameters; theorems about forms assume a hash without collisions
-- on the forms that servers build (Separates), and the one on messages a validator that checks
-- `required` (ChecksRequired), or the types of required members (ChecksText). The ExposedThing that
-- a connection serves is in the state of its handler, as if no one else used it meanwhile, and the
-- UUIDs of subscriptions are arguments.
--
-- Not modelled: the subscriptions of the clients, the clients of HTTP and CoAP and their handlers,
-- the event and ping handlers and the runner of MQTT, the reconnection of a delivery loop, DNS-SD, the
-- catalogue handlers, the consumed Things, the other dictionaries of Thing Descriptions and the
-- codecs: most of it is input and output over other packages.
pub mod Prelude
pub mod Platform
pub mod Json
pub mod Validation
pub mod Interaction
pub mod Thing
pub mod ThingSet
pub mod Server
pub mod Servient
pub mod Exposed
pub mod Ws
pub mod Refs
pub mod Mqtt
pub mod Choice
pub mod Tests
