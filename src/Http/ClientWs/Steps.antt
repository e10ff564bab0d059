-- ===== src/Http/ClientWs/Steps.antt =====
-- Each step keeps the invariant of the connections.
use pi_remote.Prelude.{
  ℕ, ◌≡◌, refl, String, Bool, true, false, Option, none, some, List, [], ◌∷◌, lookup, insert,
  string_eq, if_rule,
}
use pi_remote.Sessions.Channels.{Bytes, ClientConn}
use pi_remote.Sessions.Session.{Session, attach, attach_with_replay}
use pi_remote.Sessions.Registry as Registry
use pi_remote.Sessions.Registry.{Encoder}
use pi_remote.Sessions.Registry.Attached.{insert-AllAttached}
use pi_remote.Machines.Registry.{Conn}
use pi_remote.Http.DaemonWs.{Received, text, other, failed}
use pi_remote.Http.AppFrames.{
  AppDecoder, AppFrame, AppFrameType, app_frame_type, SpawnReply, SpawnSession,
}
use pi_remote.Http.ClientWs.{
  AppConn, Hub, sessions_of, detach_attached, set_attached, answer, handle_spawn_response,
}
use pi_remote.Http.ClientWs.Handlers.{
  decoded, is_attached_to, attach_at, attach_found, handle_attach, handle_detach, handle_subscribe,
  spawn_at, handle_spawn_session, forward_to, handle_pty_input, handle_pty_resize, handle_focus,
  dispatch,
}
use pi_remote.Http.ClientWs.Serve.{pump_queue, pump, handle_head, read}
use pi_remote.Http.ClientWs.Attached.{Follows}
use pi_remote.Http.ClientWs.Wired.{
  IsWired, kept_session, detached, on_close-IsWired, own_state, moved_to, attached_clients-Follows,
}

-- The connections, the sessions and the counter are as before.
abbrev pub Untouched : Hub → Hub → Type 0
Untouched h h' = (h'.conns ≡ h.conns) × (sessions_of h' ≡ sessions_of h) × (h'.count ≡ h.count)

pub Untouched-IsWired :
    (limit : ℕ) (h h' : Hub) → Untouched h h' → IsWired limit h → IsWired limit h'
Untouched-IsWired limit h h' (conns, sessions, count) v = record {
  counted = rw count v.counted;
  named = rw (conns, count) v.named;
  held = rw (conns, sessions) v.held;
}

pub answer-Untouched :
    (app : AppFrame → Bytes) (r : SpawnReply) (h : Hub) (o : Option ClientConn)
    → Untouched h (answer app r h o)
answer-Untouched app r h none = (refl, refl, refl)
answer-Untouched app r h (some c) = (refl, refl, refl)

pub spawn_response-Untouched :
    (app : AppFrame → Bytes) (request_id : String) (success : Bool) (id err : Option String)
    (h : Hub)
    → Untouched h (handle_spawn_response app request_id success id err h)
unfolding handle_spawn_response
spawn_response-Untouched app request_id success id err h =
    answer-Untouched app _ (record h { spawns = _ }) (lookup request_id h.spawns)

forward_to-Untouched :
    (o : Option Conn) (h : Hub) (ok : Bool) → (f : _) → Untouched h (forward_to o f ok h)
forward_to-Untouched none h ok f = (refl, refl, refl)
forward_to-Untouched (some d) h true f = (refl, refl, refl)
forward_to-Untouched (some d) h false f = (refl, refl, refl)

decoded-IsWired {ℓ} :
    {A : Type ℓ} (limit : ℕ) (o : Option A) (h : Hub) (f : A → Hub)
    → IsWired limit h
    → ((msg : A) → IsWired limit (f msg))
    → IsWired limit (decoded o h f)
decoded-IsWired limit none h f v k = v
decoded-IsWired limit (some msg) h f v k = k msg

module _ (dec : AppDecoder) (app : AppFrame → Bytes) where
  spawn_at-Untouched :
      (conn : ClientConn) (ok : Bool) (msg : SpawnSession) (h : Hub) (o : Option Conn)
      → Untouched h (spawn_at dec app conn ok msg h o)
  spawn_at-Untouched conn ok msg h none = (refl, refl, refl)
  spawn_at-Untouched conn true msg h (some d) = (refl, refl, refl)
  spawn_at-Untouched conn false msg h (some d) =
      spawn_response-Untouched app msg.request_id false none _ (record h { spawns = _ })

  module _ (limit : ℕ) (id : String) (c : AppConn) (now : ℕ) (h : Hub)
      (open_conn : lookup id h.conns ≡ some c) (v : IsWired limit h) where
    attach_at-IsWired :
        (k : String) (last_seq : ℕ) (o : Option Session)
        → lookup k (sessions_of (detach_attached id now c.attached h)) ≡ o
        → IsWired limit (
            set_attached id c
              (some k)
              (attach_at dec app id last_seq now k (detach_attached id now c.attached h) o))
    unfolding detach_attached attach_with_replay attach
    attach_at-IsWired k last_seq none l = record {
      counted = v.counted;
      named = own_state limit id c now h open_conn v _ refl;
      held = moved_to limit id c now h open_conn v _ _ (detached limit id c now h open_conn v);
    }
    attach_at-IsWired k last_seq (some s) l =
        let d : AppConn = record c { attached = some k } in
        let others = detached limit id c now h open_conn v in
        record {
          counted = v.counted;
          named = own_state limit id c now h open_conn v d refl;
          held =
              insert-AllAttached (Follows (insert id d h.conns)) k _ _
                (moved_to limit id c now h open_conn v d _ others)
                (attached_clients-Follows limit id c now h open_conn v k d s _ refl l others);
        }

    handle_attach-IsWired : (b : Bytes) → IsWired limit (handle_attach dec app id c now b h)
    unfolding handle_attach
    handle_attach-IsWired b =
        decoded-IsWired limit (dec.attach b) h _ v
          λ msg. go msg.session_id msg.last_seq (Registry.get msg.session_id h.ingest.sessions)
      where
        go :
            (k : String) (last_seq : ℕ) (o : Option Session)
            → IsWired limit (attach_found dec app id c last_seq now h k o)
        go k last_seq none = v
        go k last_seq (some s) = attach_at-IsWired k last_seq _ refl

    handle_detach-IsWired : (b : Bytes) → IsWired limit (handle_detach dec app id c now b h)
    unfolding handle_detach detach_attached
    handle_detach-IsWired b = decoded-IsWired limit (dec.detach b) h _ v λ msg.
        if_rule (IsWired limit) (is_attached_to msg.session_id c.attached) _ _
          (record {
            counted = v.counted;
            named = own_state limit id c now h open_conn v _ refl;
            held =
                moved_to limit id c now h open_conn v _ _ (detached limit id c now h open_conn v);
          })
          v

    dispatch-IsWired :
        (t : AppFrameType) (ok : Bool) (b : Bytes)
        → IsWired limit (dispatch dec app t id c now ok b h)
    unfolding dispatch handle_subscribe handle_spawn_session handle_pty_input handle_pty_resize
        handle_focus
    dispatch-IsWired AppFrameType.attach ok b = handle_attach-IsWired b
    dispatch-IsWired AppFrameType.detach ok b = handle_detach-IsWired b
    dispatch-IsWired AppFrameType.subscribe_machine_list ok b =
        Untouched-IsWired limit h _ (refl, refl, refl) v
    dispatch-IsWired AppFrameType.spawn_session ok b =
        decoded-IsWired limit (dec.spawn_session b) h _ v
          λ msg. Untouched-IsWired limit h _ (spawn_at-Untouched _ ok msg h _) v
    dispatch-IsWired AppFrameType.pty_input ok b =
        decoded-IsWired limit (dec.pty_input b) h _ v
          λ msg. Untouched-IsWired limit h _ (forward_to-Untouched _ h ok _) v
    dispatch-IsWired AppFrameType.pty_resize ok b =
        decoded-IsWired limit (dec.pty_resize b) h _ v
          λ msg. Untouched-IsWired limit h _ (forward_to-Untouched _ h ok _) v
    dispatch-IsWired AppFrameType.client_focus ok b =
        decoded-IsWired limit (dec.client_focus b) h _ v
          λ msg. Untouched-IsWired limit h _ (refl, refl, refl) v
    dispatch-IsWired AppFrameType.unknown ok b = v

    pub read-IsWired : (r : Received) (ok : Bool) → IsWired limit (read dec app id c now r ok h)
    unfolding read
    read-IsWired failed ok = on_close-IsWired limit id c now h open_conn v
    read-IsWired other ok = v
    read-IsWired (text b) ok = go (dec.head b)
      where
        go : (o : Option String) → IsWired limit (handle_head dec app id c now ok b h o)
        go none = v
        go (some t) = dispatch-IsWired (app_frame_type t) ok b

    pub pump-IsWired : (ok : Bool) → IsWired limit (pump id c ok h)
    unfolding pump
    pump-IsWired ok = if_rule (IsWired limit) c.writing _ _ (go ok (lookup id h.ingest.channels)) v
      where
        go : (ok : Bool) (o : Option (List Bytes)) → IsWired limit (pump_queue id c ok h o)
        go ok none = v
        go ok (some []) = v
        go true (some (b ∷ q)) = Untouched-IsWired limit h _ (refl, refl, refl) v
        go false (some (b ∷ q)) = record {
          counted = v.counted;
          named = own_state limit id c now h open_conn v _ refl;
          held = kept_session limit id c now h open_conn v _ _ refl v.held;
        }
