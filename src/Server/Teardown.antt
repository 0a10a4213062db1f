-- ===== src/Server/Teardown.antt =====
-- The end of a session, and the time limits (server/src/signal_server.cpp).
use vlan_connect.Prelude.{
  ltb, ◌==◌, if◌then◌else◌, ℕ, ◌+◌, ◌/◌, Bool, true, false, not, ◌&&◌, ◌||◌, Option, none, some,
  List, [], ◌∷◌,
}
use vlan_connect.Prelude.Map.{find, erase}
use vlan_connect.Room.Leases.{is_some}
use vlan_connect.Room.Manager.{get_room}
use vlan_connect.Session.{SessionState, await_hello, await_server_auth, resume_pending}
use vlan_connect.SecureFrame.Cipher.{Crypto}
use vlan_connect.Server.State.{ClientSession, SignalServer, update_client}
use vlan_connect.Server.Index.{
  find_client_owner_by_peer_id, find_client_owner_by_data_fd, is_closing, unbind_client_indexes,
  release_peer_id,
}
use vlan_connect.Server.Send.{Wire, clear_send_buffer, close_data_channel}
use vlan_connect.Server.Deliver.{on_wire}
use vlan_connect.Server.Rooms.{put_rooms, offline_member, dead, mark_session_offline}
use vlan_connect.Server.Expiry.{cleanup_expired_leases}

pub data DisconnectReason : Type 0 where
  network takeover logout_complete : DisconnectReason

abbrev pub is_takeover : DisconnectReason → Bool
is_takeover takeover = true
is_takeover _ = false

abbrev pub is_logout : DisconnectReason → Bool
is_logout logout_complete = true
is_logout _ = false

abbrev pub is_resume_pending : SessionState → Bool
is_resume_pending resume_pending = true
is_resume_pending _ = false

abbrev pub is_other : ℕ → Option ClientSession → Bool
is_other fd none = false
is_other fd (some c) = not (c.tcp_fd == fd)

abbrev pub just : Wire → Bool × Wire
just w = (true, w)

-- `closeDataChannel` and `clearSendBuffer` of the session of a socket.
unfoldable pub close_data : ℕ → SignalServer → SignalServer
unfolding on_wire close_data_channel
close_data fd s = (on_wire fd (λ w. just (close_data_channel w)) s).1

unfoldable pub clear_buffers : ℕ → SignalServer → SignalServer
unfolding on_wire clear_send_buffer
clear_buffers fd s =
    (on_wire fd (λ w. just (clear_send_buffer true (clear_send_buffer false w))) s).1

-- What happens to the lease of a session that ends, and whether its peer number is kept for it.
unfoldable pub keep_lease :
    ℕ → DisconnectReason → Bool → ClientSession → SignalServer → Bool × SignalServer
unfolding mark_session_offline offline_member put_rooms
keep_lease now reason owned_by_other c s =
    if not owned_by_other && not (is_logout reason) && not (c.room_id == 0)
    then (true, mark_session_offline now c s)
    else if not owned_by_other
        && not (is_logout reason)
        && is_resume_pending c.state
        && not (c.resume_room_id == 0)
    then (
      is_some (get_room c.resume_room_id s.rooms),
      put_rooms (offline_member now c.resume_room_id c.peer_id s.rooms) s,
    )
    else (false, s)

unfoldable pub end_session : ℕ → DisconnectReason → ClientSession → SignalServer → SignalServer
unfolding find_client_owner_by_peer_id close_data keep_lease unbind_client_indexes release_peer_id
    clear_buffers update_client
end_session now reason c s =
    let s0 = update_client c.tcp_fd dead s in
    let (peer_owner, s1) = find_client_owner_by_peer_id c.peer_id s0 in
    let owned_by_other = is_other c.tcp_fd peer_owner in
    let s2 = close_data c.tcp_fd s1 in
    let (kept, s3) = keep_lease now reason owned_by_other c s2 in
    let s4 = unbind_client_indexes (record c { data_fd = none }) s3 in
    let s5 =
      if is_takeover reason || owned_by_other || kept then s4 else release_peer_id c.peer_id s4 in
    let s6 = clear_buffers c.tcp_fd s5 in record s6 { clients = erase c.tcp_fd s6.clients }

unfoldable pub destroy_client : ℕ → ℕ → DisconnectReason → SignalServer → SignalServer
unfolding end_session
destroy_client now fd reason s = elim (find fd s.clients) [
  | none ↦ s
  | some c ↦ end_session now reason c s
]

unfoldable pub handle_client_disconnect : ℕ → ℕ → SignalServer → SignalServer
unfolding destroy_client
handle_client_disconnect now fd s = elim (find fd s.clients) [
  | none ↦ s
  | some c ↦ destroy_client now fd (if is_closing c.state then logout_complete else network) s
]

unfoldable pub handle_data_channel_disconnect : ℕ → SignalServer → SignalServer
unfolding find_client_owner_by_data_fd close_data
handle_data_channel_disconnect fd s = elim (find_client_owner_by_data_fd fd s).0 [
  | none ↦ (find_client_owner_by_data_fd fd s).1
  | some c ↦ close_data c.tcp_fd (find_client_owner_by_data_fd fd s).1
]

abbrev pub heartbeat_timeout_ms : ℕ
heartbeat_timeout_ms = 45000

abbrev pub waits_for_hello : SessionState → Bool
waits_for_hello await_hello = true
waits_for_hello _ = false

abbrev pub waits_for_auth : SessionState → Bool
waits_for_auth await_server_auth = true
waits_for_auth _ = false

-- A session that missed the deadline of its handshake.
unfoldable pub is_late : ℕ → ClientSession → Bool
is_late now c =
    (waits_for_hello c.state && ltb 0 c.hello_deadline && ltb c.hello_deadline now)
    || (waits_for_auth c.state && ltb 0 c.auth_deadline && ltb c.auth_deadline now)

-- `!alive || now - lastPing > HEARTBEAT_TIMEOUT_MS / 1000` after the two deadlines.
unfoldable pub is_dead : ℕ → ClientSession → Bool
unfolding is_late
is_dead now c = is_late now c || not c.alive || ltb (c.last_ping + heartbeat_timeout_ms / 1000) now

unfoldable pub mark_late : ℕ → List (ℕ × ClientSession) → List (ℕ × ClientSession)
unfolding is_late
mark_late now [] = []
mark_late now ((fd, c) ∷ cs) = (fd, if is_late now c then dead c else c) ∷ mark_late now cs

unfoldable pub dead_fds : ℕ → List (ℕ × ClientSession) → List ℕ
unfolding is_dead
dead_fds now [] = []
dead_fds now ((fd, c) ∷ cs) =
    let later = dead_fds now cs in if is_dead now c then fd ∷ later else later

unfoldable pub disconnect_all : ℕ → List ℕ → SignalServer → SignalServer
unfolding handle_client_disconnect
disconnect_all now [] s = s
disconnect_all now (fd ∷ fds) s = disconnect_all now fds (handle_client_disconnect now fd s)

-- The connections that were never classified and the limits by address are left out.
unfoldable pub check_timeouts : Crypto → ℕ → SignalServer → SignalServer
unfolding mark_late dead_fds disconnect_all cleanup_expired_leases
check_timeouts crypto now s =
    let late = record s { clients = mark_late now s.clients } in
    cleanup_expired_leases crypto now (disconnect_all now (dead_fds now s.clients) late)
