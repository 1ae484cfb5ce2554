-- ===== src/Lib.antt =====
-- The DontMove Kit gateway: a cellular modem's calls, offered to SIP clients.
--
-- The gateway drives a modem by AT commands over a serial port, keeps the one cellular call that
-- the modem can have, and shows it to SIP clients on the local network and to the clients of an HTTP
-- API. A model of its parts follows the Go code under gateway-patched/internal, bottom up.
--
-- At.Parser, At.Client: modem/at/parser.go. `Parser.Feed` cuts bytes into lines; the client writes
--   a command and reads lines up to a final one. A port is a script: the reads to come, and which
--   writes go through. An operation is a function of the client to a result, the unsolicited lines
--   it met, and the client behind it.
-- At.Clcc, At.Status, At.Adapter, At.Messages: modem/at/adapter.go. How lines are read; the adapter's
--   active call, its events, `HandleURC`, and the commands of a call and of text messages as
--   operations that fail or go on.
-- At.Report: modem/at/adapter.go. `Probe` and `Status`, over `Vendor` for the packages that they call.
-- Calls: modem/call_adapter.go. `ActiveCallAdapter` over any modem control, a record of operations
--   that At.Adapter fills (`Calls.Ghosts.at_control`). FanOut: modem/fanout.go.
-- Sip.Message, Sip.Session, Sip.Teardown: sip/server.go and sip/session.go. How SIP messages are
--   read and rendered, the state of a call's session, and what its end sends to whom.
-- Sip.Server: sip/server.go. The table of sessions and the handlers. The state is the table, the
--   call adapter of Calls, the registrations and the datagrams sent. A handler is a function
--   from the server to the server; `Option` stands where the code can panic, which is `none`.
-- Sip.Push: sip/linphone_push.go and sip/yakpush.go. The parameters of a registration, and the wake-up
--   of the clients that have them; the push service is a function from a post to its answer.
-- Sip.Chat: sip/server.go. `handleMessageRequest` and `ForwardSMS`: messages between SIP and the engine.
-- Sms: sms/engine.go. How messages come in and are submitted, over a record of everything that the
--   engine calls (`Sms.Outside`).
-- Api: api/server.go. A handler is a function from the server to a response and the server. What
--   it calls (the store, the call controller, the modem, the engine, the recordings, the token
--   service) is the record `Api.State.Env`, and the state of each is a field of the server;
--   `Elsewhere` stands for the handlers of pairing, token refresh, the WebRTC offer and the event
--   stream. Api.Keys: the token check and the Idempotency-Key, with the laws of the store's table
--   of keys (`KeyTable`), which the theorems on repeated requests assume; `Completions` is the same
--   table where completing a key may fail. Api.Messages, Api.Calls,
--   Api.Recordings: the handlers by their subject. Api.Sdp: what the log shows of a session
--   description. Api.Turn: the relay's credentials (`callICE`); the MAC and the name lookup are of
--   `Env`. Api.Routes: the table of paths, each with its handler, and `serve`.
-- Prelude, Text: shared names, and the string functions of Go that the code calls. Texts are lists
--   of bytes. Tests: runs of the theorems.
--
-- Bounds and fuel. `Feed`'s loop, `split` and `fields` run on fuel, which is one more than the length
-- of the text: each round takes at least a byte. The printing of a number has one more than the
-- number: each round takes a digit. A port's script is
-- finite: where it ends, the context ends. The waits of the adapter are given the number of probes
-- that fit before their deadline. A channel holds 32 events, a session 8 invitations, as in the code.
--
-- Concurrency. Every operation of the client, the adapters and the server is one step; interleavings
-- are sequences of steps, and the parts of a handler that run later, in goroutines, are operations of
-- their own (`publish`, `ring_timeout`, `finish_invite`, `maybe_reap_ghosts`). The order in which a
-- map is visited is the order of a list.
--
-- Not modelled: the serial port, the sockets and the HTTP listener; the registrar, authenticator, media
-- sessions and voice bridge, which are not part of the repository and are parameters
-- (`Sip.Server.Env`), like the SMS database and codec and the services of `Api.State.Env`;
-- pairing, token refresh, the WebRTC offer and the event stream of the HTTP API, and the
-- redirects of Go's multiplexer; start-up, and the programs in other languages. A request's token is
-- looked up without a change of the store, and the pushes' goroutines run in the order of their targets.
pub mod Prelude
pub mod Text
pub mod At
pub mod Calls
pub mod FanOut
pub mod Sip
pub mod Sms
pub mod Api
pub mod Tests
