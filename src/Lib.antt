-- ===== src/Lib.antt =====
-- pi-remote lets a phone watch and drive coding sessions that run on several machines. A daemon on
-- each machine sends the events and the terminal bytes of its sessions to a coordinator over a
-- WebSocket; the coordinator keeps a bounded history of each session and forwards everything to the
-- apps that are attached. This library models both programs, in Go under
-- pi-remote-coordinator/internal and pi-remote-daemon/internal: the coordinator's path from a
-- daemon's frame to the queue of an app, who is let in, the registration of the apps and their
-- pushes; and on the daemon's side the connections of the extensions, the registry of its sessions,
-- the tmux client and what it sends to the coordinator.
--
-- Broker.Ring: the per-session RingBuffer of broker/broker.go (Append, evictLocked, AllEntries,
--   Replay). Its children prove the walk around the ring, what it contains, the growth step, and
--   what it tracks of a history.
-- Broker.Lru: BalanceGlobalLRU of broker/broker.go, the limits of all rings together.
-- Sessions.Channels, Sessions.Session: sessions/session.go and the bounded queue of
--   http/client_ws.go. Sessions.Listens and Sessions.Replayed follow one connection through any
--   operations on a session.
-- Sessions.Registry: sessions/registry.go, the map of sessions; Histories, Paused, Numbers, Seen
--   and Attached carry what its operations keep.
-- Machines.Registry: machines/machine.go and machines/registry.go. Machines.Frames: the frames
--   of proto/daemon-coordinator as records.
-- Machines.Ingest: machines/ingest.go, Handle with every handler; Connections and Gate are about
--   the first frame of a connection, Evolves and Histories about the sessions, Attached and Seen
--   about what a frame leaves attached, and of the number that a session has come to.
-- Http.DaemonWs: http/daemon_ws.go, the read loop and the deferred clean-up of a daemon
--   connection; Synced is about the rings, Exit about the clean-up, Again about a frame that comes
--   a second time.
-- Http.AppFrames, Http.ConnId, Http.ClientWs: http/client_ws.go, the connections of the apps;
--   Handlers has the cases of the read loop, Serve the life of a connection and the hooks of
--   http/mux.go. Attached, Wired, Steps and Served are about who is attached to what, Hello about
--   who is let in, Writes about what a daemon is sent, Answers about the way back of a spawn
--   response, Orphans about a session that is started twice.
-- Daemon.Registry: session/session.go and session/registry.go under pi-remote-daemon/internal,
--   the daemon's own sessions; Calls and Ending follow any calls of its methods, Reuse an id that
--   comes back, Sweeping the heartbeats.
-- Daemon.Multiplex: session/multiplex.go and session/seq.go; a call is its two steps, the one
--   that takes a number and builds the frame and the one that sends it. Calls has the steps of
--   several goroutines, Interleaved, with Numbers and Flight, is about the numbers of their
--   frames, Live about what a reconnect reports.
-- Push: clients/client.go, clients/registry.go, push/focus.go, push/prefs.go and
--   push/dispatcher.go; Focus is about the claims, Dispatched about who gets a post.
--   Push.Transport: push/keypair.go, push/encrypt.go and push/ntfy.go.
-- Daemon.Socket: socket/conn.go under pi-remote-daemon/internal, the connection of an extension;
--   Ends is about how it may end, Rejected about a registration that is refused after the tmux
--   client has mapped its pane.
-- Daemon.Tmux: tmux/tmux.go under pi-remote-daemon/internal. Reader has the loop over the lines
--   of tmux, with RunCommand in its child Commands, Escapes the decoding of output, Panes and
--   Targets the panes of the sessions, Spawns the spawn requests, Captures the first screen of a
--   pane, Lines the string functions of Go. Replies, Issued, Late and Exit are about the loop,
--   Output about what a pane writes, Live and Requests about panes and spawns.
-- Config, Daemon.Config: config/config.go of the coordinator and of the daemon; Config.Limits is
--   about the limits of the cache, Daemon.Config.Identity about the id of a machine.
-- Http.Endpoints: http/clients_register.go and http/clients_preferences.go; Requests is about
--   any requests.
-- Auth: auth/cfaccess.go, auth/stub.go and the types of auth/middleware.go; Accepts is about the
--   tokens that pass, Keys about the cache of keys.
-- Daemon.Coordinator: coordinator/client.go and coordinator/frames.go under
--   pi-remote-daemon/internal, what goes over a connection to the coordinator; Handshakes is about
--   its order, Started about a session that is announced over it.
-- Daemon.Client: the reconnect loop of coordinator/client.go under pi-remote-daemon/internal.
-- Ptymux.Sanitizer: ptymux/sanitize.go under pi-remote-daemon/internal, the filter of the
--   terminal bytes.
-- Prelude: helpers on native numbers, lists and association lists. Tests: concrete values and
--   runs.
--
-- State is passed explicitly: a method is a function from the old state to the new one, which is
-- what its mutex makes of it. A Go map is an association list; an order of `range` that the
-- language leaves open is the order of that list. time.Now() and r.now() are arguments, and a frame
-- is handled at one time. A handler that takes a mutex several times is one step here, the whole
-- handling of a frame and RunCommand of the tmux client among them; the calls of the daemon's
-- multiplexer interleave step by step. A pointer to a connection is a number or an identifier. A
-- send on a full channel is dropped, as in the source. The hooks of the ingestor are recorded
-- calls; logging is left out.
--
-- Fuel: the eviction and the copying loops of the ring run on the length of the slice, which bounds
-- the steps from Tail to Head. The shrinking loop of BalanceGlobalLRU runs on the sum of what each
-- limit lies above the floor, plus one round for each ring above it: every round lowers one of
-- these. DeescapeTmux runs on the length of its text, of which each round takes a byte at least.
--
-- Parameters: the three float64 products of the balance, of which only monotone bounds are used,
-- and the JSON decoding and encoding, of which only the range of sequence numbers is used; the
-- sealing of a push; what tmux and `ps` answer; the fetch of the key set, base64 and RSA; TOML and
-- what the operating system tells of files and users.
--
-- Not modelled: the rest of the daemon (the dial and the pings of its coordinator client, the start
-- and end of the tmux process, and suspend), and the generated decoders.
pub mod Prelude
pub mod Auth
pub mod Config
pub mod Broker
pub mod Ptymux
pub mod Push
pub mod Sessions
mod Tests
pub mod Daemon
pub mod Http
pub mod Machines
