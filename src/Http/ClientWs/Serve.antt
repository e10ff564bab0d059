-- ===== src/Http/ClientWs/Serve.antt =====
-- The life of an app's connection, in ServeHTTP of pi-remote-coordinator/internal/http/client_ws.go,
-- and the hooks by which the daemons' connections reach the apps', set in
-- pi-remote-coordinator/internal/http/mux.go.
use Prim.Native.Nat.{◌^◌}
use pi_remote.Prelude.{
  ℤ, ℕ, zero, suc, ◌+◌, ◌%◌, String, str_eq, Bool, Option, none, some, List, [], ◌∷◌, ◌++◌, lookup,
  insert, delete, string_eq, if◌then◌else◌,
}
use pi_remote.Broker.Lru.{Floats}
use pi_remote.Sessions.Channels.{Bytes}
use pi_remote.Sessions.Registry as Registry
use pi_remote.Sessions.Registry.{Encoder}
use pi_remote.Machines.Frames.{SpawnResponse, Decoder}
use pi_remote.Push as Push
use pi_remote.Http.DaemonWs as DaemonWs
use pi_remote.Http.DaemonWs.{Received, text, other, failed}
use pi_remote.Http.ConnId.{conn_id}
use pi_remote.Http.AppFrames.{ClientHello, AppDecoder, app_frame_type, AppFrame}
use pi_remote.Http.ClientWs.{
  AppConn, Hub, with_channels, detach_attached, handle_spawn_response, broadcast_machine_list,
}
use pi_remote.Http.ClientWs.Handlers.{dispatch}

-- Why a connection is refused before its loop begins.
pub data Refusal : Type 0 where
  auth_required read_ended not_text malformed_first not_hello missing_fields : Refusal
  unknown_client : Refusal

abbrev pub registered_client : Option Push.Client → Bool
registered_client none = Bool.false
registered_client (some c) = Bool.true

-- The connection gets its id, its send channel and its writing goroutine.
unfoldable pub admit : String → Hub → Hub
admit client_id h =
    let n = (h.count + 1) % 2 ^ 64 in
    let id = conn_id client_id n in
    let c : AppConn = record { client_id = client_id; attached = none; writing = Bool.true } in
    with_channels (insert id []) (record h { count = n; conns = insert id c h.conns })

-- The clean-up that ServeHTTP defers. The writing goroutine ends too; the channel is left to those
-- that still hold it.
abbrev pub drop_focus : String → Option Push.FocusTracker → Option Push.FocusTracker
drop_focus id none = none
drop_focus id (some t) = some (Push.drop_conn id t)

unfoldable pub on_close : String → AppConn → ℕ → Hub → Hub
on_close id c now h =
    let h' = detach_attached id now c.attached (record h { subs = delete id h.subs }) in
    record h' { focus = drop_focus id h'.focus; conns = delete id h'.conns }

-- The writing goroutine takes the next frame from the channel. If the write fails it ends, and has
-- the context cancelled, so that the next read of the loop fails.
abbrev pub pump_queue : String → AppConn → Bool → Hub → Option (List Bytes) → Hub
pump_queue id c ok h none = h
pump_queue id c ok h (some []) = h
pump_queue id c ok h (some (b ∷ q)) =
    let h' = with_channels (insert id q) h in
    if ok
    then record h' { delivered = h'.delivered ++ (id, b) ∷ [] }
    else record h' { conns = insert id (record c { writing = Bool.false }) h'.conns }

unfoldable pub pump : String → AppConn → Bool → Hub → Hub
pump id c ok h = if c.writing then pump_queue id c ok h (lookup id h.ingest.channels) else h

-- What happens to a connection of an app, or of a daemon. `opened` has the result of the
-- authentication and of the first read; `received` that of a later read, and whether a write to a
-- daemon would succeed; `wrote` the result of a write to the app.
pub data Event : Type 0 where
  opened : Bool → Received → Event
  received : String → Received → Bool → Event
  wrote : String → Bool → Event
  daemon : DaemonWs.Event → Event

-- `NewMux`: the registries, the ingestor and its hooks, and no connection.
unfoldable pub new_hub : ℤ → ℤ → Bool → Push.Clients → Option Push.FocusTracker → Hub
new_hub total_cache_bytes session_cache_floor_bytes has_push clients focus = record {
  ingest =
      DaemonWs.new_ingestor
        (Registry.new_registry_with_limits total_cache_bytes session_cache_floor_bytes) has_push
        Bool.true Bool.true;
  clients = clients;
  focus = focus;
  subs = [];
  spawns = [];
  conns = [];
  count = 0;
  delivered = [];
  written = [];
}

module _ (dec : AppDecoder) (app : AppFrame → Bytes) where
  abbrev pub accept_hello : Hub → Option ClientHello → Hub × Option Refusal
  accept_hello h none = (h, some missing_fields)
  accept_hello h (some hello) =
      if registered_client (Push.get hello.client_id h.clients)
      then (admit hello.client_id h, none)
      else (h, some unknown_client)

  abbrev pub accept_head : Bytes → Hub → Option String → Hub × Option Refusal
  accept_head b h none = (h, some malformed_first)
  accept_head b h (some t) =
      if str_eq t "client_hello" then accept_hello h (dec.client_hello b) else (h, some not_hello)

  abbrev pub accept_first : Hub → Received → Hub × Option Refusal
  accept_first h failed = (h, some read_ended)
  accept_first h other = (h, some not_text)
  accept_first h (text b) = accept_head b h (dec.head b)

  unfoldable pub accept : Bool → Received → Hub → Hub × Option Refusal
  accept authorised first h = if authorised then accept_first h first else (h, some auth_required)

  abbrev pub handle_head : String → AppConn → ℕ → Bool → Bytes → Hub → Option String → Hub
  handle_head id c now ok b h none = h
  handle_head id c now ok b h (some t) = dispatch dec app (app_frame_type t) id c now ok b h

  -- One round of the read loop.
  unfoldable pub read : String → AppConn → ℕ → Received → Bool → Hub → Hub
  read id c now failed ok h = on_close id c now h
  read id c now other ok h = h
  read id c now (text b) ok h = handle_head id c now ok b h (dec.head b)

  -- An event of a connection whose loop has ended, or not begun, is none.
  abbrev pub of_conn : (AppConn → Hub) → Hub → Option AppConn → Hub
  of_conn f h none = h
  of_conn f h (some c) = f c

  module _ (ddec : Decoder) (enc : Encoder) (fl : Floats) where
    -- The calls of `broadcastMachineList` and of `handleSpawnResponse`. Either is the last thing
    -- that the handler of a daemon's frame does, and one frame leads to no more than one call.
    unfoldable pub run_broadcasts : ℕ → Hub → Hub
    run_broadcasts zero h = h
    run_broadcasts (suc n) h = run_broadcasts n (broadcast_machine_list app h)

    unfoldable pub run_answers : List SpawnResponse → Hub → Hub
    run_answers [] h = h
    run_answers (r ∷ rs) h =
        run_answers rs (handle_spawn_response app r.request_id r.success r.session_id r.error h)

    -- A step of a daemon's connection, and the hooks that it calls.
    unfoldable pub daemon_step : DaemonWs.Event → Hub → Hub
    daemon_step e h =
        let i =
          DaemonWs.step ddec enc fl Bool.true e (record (h.ingest) { calls = 0; answers = [] }) in
        run_answers i.answers (run_broadcasts i.calls (record h { ingest = i }))

    unfoldable pub step : ℕ → Event → Hub → Hub
    step now (opened authorised first) h = (accept authorised first h).0
    step now (received id r ok) h = of_conn (λ c. read id c now r ok h) h (lookup id h.conns)
    step now (wrote id ok) h = of_conn (λ c. pump id c ok h) h (lookup id h.conns)
    step now (daemon e) h = daemon_step e h

    -- Events with the time of each.
    unfoldable pub serve : List (ℕ × Event) → Hub → Hub
    serve [] h = h
    serve ((now, e) ∷ es) h = serve es (step now e h)
