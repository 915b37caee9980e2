-- ===== src/Lib.antt =====
-- KCPQ: a publish/subscribe message queue over KCP, a server and a client in Go.
--
-- The parts and how they meet. A client (client/client.go, client/subscription.go) writes frames of the
-- protocol (protocol/protocol.go) to a KCP connection. For each connection the server
-- (server/server.go) has a session (server/session.go), whose read loop parses the frames and hands each
-- message to a handler; the handlers change the router (server/router.go), which knows the sessions
-- subscribed to each pattern, and put answers and published messages into the sessions' queues, which
-- the write loops drain. server/router_optimized.go is a second router, which the server does not use.
--
-- The files, and what they model:
--   Prelude        Boolean tests, lists and byte strings over the native numbers
--   Protocol       `Encode`, `ParseWithRemaining`, `ParseFromReader` and the command names. A byte is a
--                  number, Protocol/Words has the big-endian words, and a reader is the list of the
--                  chunks that the reads will deliver, which `read_full` joins as io.ReadFull does.
--   Subject        the `strings` functions that split and compare subjects
--   Subscriptions  a Go map from subjects to lists of sessions, as an association list
--   Router         `Router` and its methods
--   Optimized      `OptimizedRouter`, with the package's cache of compiled patterns as a field
--   RingBuffer     client/ringbuffer.go, and `calculateAvgLatencyLocked` of client/client.go
--   Session        the session's queue and its sends; Session/Interleaving has the atomic steps of any
--                  number of senders and the writer; Session/Utf8 has `truncateUTF8`
--   Server         the server's state and the handlers, `Close` of a session and of the server, and the
--                  read loop
--   Client         what the client does with a message; Client/Attempts has
--                  `SubscribeWithOptionsContext`, Client/Lifecycle has `PublishWithContext`,
--                  `Unsubscribe`, `Close`, `triggerConnectionLost` and the delays of `reconnect`,
--                  Client/Processing the goroutine of a subscription and `SubscribeChanWithContext`,
--                  Client/Receiving `receiveLoop`, Client/Stats `GetStats`
--   Client/Reconnecting  `ConnectWithContext`, `doReconnect`, `restoreSubscriptions` and
--                  `sendSubWithAck`; Client/Reconnecting/Running has the client as a step relation of
--                  its receive loops, its heartbeats, its monitor, the goroutine of `reconnect` and the
--                  calls of the application (publishing, `Subscribe` and `Unsubscribe` among them), and
--                  counts the loops that `wg.Wait` misses; the goroutine of a subscription is in
--                  Client/Processing only
--   Server/Running the server as a step relation over connections, handlers and writers
--   Server/Races   the same with the handlers and `Close` cut at their locks and sends, so that they may
--                  come between one another
--   Server/Stopping    `Close` of the server after any actions
--   Router/Unordered  the router with the order of the Go maps forgotten, as a quotient
--   Crypto         the check of a key (server/crypto.go, client/crypto.go)
--   EndToEnd       a message on its way through client, server and client; EndToEnd/Ordering has a
--                  publisher, the server and a subscriber as a step relation with the two streams between
--   Settings       config.go and the settings in `main` of examples/h264-relay and
--                  examples/kcpq-to-nats; Settings/Serving has those of examples/server
--   Relay          examples/h264-relay/main.go
--   Forwarder      examples/kcpq-to-nats/main.go; Forwarder/Starting has its `Start` and `Stop`
--   PingPong       the statistics of examples/ping_pong/main.go; PingPong/Rounds has its loop of pings,
--                  PingPong/Echo examples/ping_server/main.go
--   PerfTest       the statistics, frames and callbacks of examples/perf_test/main.go; PerfTest/Racing has
--                  `RecordMessage` at its atomic operations
-- The modules below a part hold its lemmas and theorems, named for what they are about, and its Tests.
--
-- Pointers to sessions, subscriptions and acknowledgements are numbers, and the objects are functions of
-- them, so that an object that two parts share is one object. A method is one step where a lock is held
-- through it. What is decided outside (whether a write fails, a context is done, a timeout comes, the KCP
-- library dials) is an argument. When an acknowledgement and the end of a wait come together, the model
-- takes the acknowledgement. In the step relations the actions of the goroutines come in any order. A
-- handler of the server is one action in Server/Running and EndToEnd/Ordering, and several in Server/Races;
-- `Close` of the client, a call of `Subscribe` and the restoration of one subscription are one action each. A
-- loop of the client is launched by `go`, and `wg.Wait` waits for it once it has run its own `wg.Add(1)`;
-- that two such loops may close one channel `receiveLoopDone` or `heartbeatDone`, which panics, is left out. The
-- read loop of the server takes a schedule that says when a `Close` runs that a full queue of its own session
-- has started; the closing of other sessions is in Server/Running.
--
-- Fuel: the read loops of the server and of the client run on fuel, one unit for each message, and one for
-- the end of the stream; more units than messages are enough. The attempts of
-- `SubscribeWithOptionsContext` and of `restoreOneSubscription` are three, as in the source. All other
-- loops are structural.
--
-- Not modelled: the KCP library with its encryption and settings, the NATS and YAML libraries, the pools of
-- server/pool.go, deadlines, the random factor of the delays, log output and printed statistics, rates and
-- other floating point, and the other programs under examples/ and test_simple/.
pub mod Prelude
pub mod Crypto
pub mod Protocol
pub mod Subject
pub mod Subscriptions
pub mod Router
pub mod Optimized
pub mod RingBuffer
pub mod Session
pub mod Server
pub mod Client
pub mod EndToEnd
pub mod Settings
pub mod Relay
pub mod Forwarder
pub mod PingPong
pub mod PerfTest
