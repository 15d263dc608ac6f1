-- ===== src/Lib.antt =====
-- The calling core of the mobile engine, src/*.rs: a client that talks to a gateway over HTTP, keeps
-- the live calls of a phone, and reports to the app by callbacks.
--
-- The parts, and the source of each:
--   Types      src/types.rs: calls, offers, reasons and errors, with their constructors.
--   Events     src/events.rs: the queue of callbacks (`Dispatcher`) and the guard of a call's events
--              (`CallEvents`), whose cells stand in a store, the `Outbox`.
--   Auth       src/auth.rs: the gateway token and the report of its rejection (`GatewayAuth`).
--   Gateway    src/gateway_client.rs: the routes (Routes), their resolution (Resolve), TLS (Url),
--              failover and the reading of a body (Send), the requests (Requests), what each answer
--              means (Status), and the three together (Client).
--   Dns        src/dns.rs: the resolver with its cache; Sort is the standard library's stable sort.
--   Media      src/media.rs: the session's state and its SRTP keys; Sdp reads a peer's SDP and Sdp.Build
--              writes ours and negotiates the codec; Create opens a session; Receive and Transmit are
--              the two RTP threads of `start_with_bridge`; Dtmf sends keypad digits.
--   Engine     src/lib.rs: `AriaMobileEngine`. State has the records; Calls the functions on the call
--              map; Controls mute, hold, swap and the queries; Ids the memory of outgoing ids; Outgoing
--              `reserve_outgoing`; Dial `dial`; Incoming push, watch and reject; Accept
--              `accept_incoming_call`; Hangup `hangup` with its background requests; Polls the status
--              polls; Transfer both transfers; Device registration and heartbeats; Sessions what the
--              app asks of a call's media. Steps has the step relation of all threads: a step is
--              what one of them does between two waits; Counted and Connected follow the numbers of
--              the calls through the steps, Accepting and Limit how many calls are live.
--   Engine.Ai  src/ai.rs, and what the app asks of it in src/lib.rs: State has the captures and their
--              transcription, Stored the insights and the models, Off the build without the feature,
--              Asked all requests as data, Library the AI library as a parameter with its laws.
--   Base       what they share: dictionaries for `HashMap`, text, tests and lists.
--   Tests      the theorems at concrete inputs.
--
-- How the code is modelled: an operation takes the engine to a new engine and its result. What the
-- source shares by `Arc` is a cell of a store in the engine, known by a number. Where the source waits
-- with no lock held (a request, a sleep, the other end of a channel), the operation takes an `Await`:
-- what the other threads do to the engine meanwhile, and what is awaited. The theorems hold for every
-- such function, or for those that keep what the theorem says. Work that is started in the background
-- is recorded as a `Task`; what the task does is a definition of its own. Numbers are native; `u64` and
-- `u32` counters wrap around. A `HashMap` is an association list, for each order of which the theorems
-- hold.
--
-- Fuel: only the rounds of a transfer run on fuel, and 40,002 rounds are enough if the clock, in
-- milliseconds, advances in each: 35,000 for the timeout, 5,000 for the settle time, and the round that
-- each of them ends in.
--
-- Loops that run as long as a session does (the two RTP threads) are functions of the list of their
-- turns, each turn with what the other threads have set and what the socket gave by then; to the
-- receive thread they set keys, tap and address between two turns.
--
-- Two simplifications: the end of an accept, from the removal of the watch to the new call in the map, is
-- one step, where the code frees a lock in between; and the AI is opened once where its insights are
-- followed, since opening it anew changes the store.
--
-- Not modelled: audio levels and statistics as numbers for the app, the bindings and the runtime. The AI library,
-- HTTP, JSON, URLs, SRTP, RTP headers, codecs, STUN, the DNS and the parser of socket addresses are
-- parameters.
mod Base
pub mod Types
pub mod Events
pub mod Auth
pub mod Gateway
pub mod Dns
pub mod Media
pub mod Engine
mod Tests
