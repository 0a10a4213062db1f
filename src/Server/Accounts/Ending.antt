-- ===== src/Server/Accounts/Ending.antt =====
-- The end of sessions (server/src/signal_server.cpp) keeps the account of the queued bytes.
use vlan_connect.Prelude.{
  ◌==◌, if◌then◌else◌, Bool-cases, Option-cases, none-some, some_inj, ℕ, suc, ◌≡◌, refl, sym, ap,
  ◌∙◌, subst, inl, inr, Bool, true, false, not, ◌&&◌, ◌||◌, Option, none, some, List, [], ◌∷◌,
  arith,
}
use vlan_connect.Prelude.Map.{
  find, erase, Rising, find-erase, erase-Rising, erase_absent, total, total-erase,
}
use vlan_connect.SecureFrame.Cipher.{Crypto}
use vlan_connect.Server.State.{ClientSession, SignalServer, update_client}
use vlan_connect.Server.Index.{find_client_owner_by_peer_id, unbind_client_indexes, release_peer_id}
use vlan_connect.Server.Deliver.{wire}
use vlan_connect.Server.Rooms.{dead}
use vlan_connect.Server.Accounts.{
  queued, IsBounded, IsCounted, same-IsCounted, on_wire_gone, on_wire_found, on_wire-IsCounted,
  update_client-IsCounted,
}
use vlan_connect.Server.Accounts.Deliver.{
  if-IsCounted, if_result-IsCounted, option-IsCounted, find_client_owner_by_peer_id-IsCounted,
}
use vlan_connect.Server.Send.{Wire, clear_send_buffer, close_data_channel}
use vlan_connect.Server.Teardown.{
  DisconnectReason, is_takeover, is_logout, is_resume_pending, is_other, just, close_data,
  clear_buffers, keep_lease, end_session, destroy_client, handle_client_disconnect, is_late,
  mark_late, dead_fds, disconnect_all, check_timeouts,
}
use vlan_connect.Server.Accounts.Rooms.{
  put_rooms-IsCounted, release_peer_id-IsCounted, mark_session_offline-IsCounted,
  cleanup_expired_leases-IsCounted,
}

-- Closing the data channel and dropping the queues.
pub close_data-IsCounted : (fd : ℕ) (s : SignalServer) → IsCounted s → IsCounted (close_data fd s)
unfolding close_data
close_data-IsCounted fd s v =
    on_wire-IsCounted fd (λ w. just (close_data_channel w)) s (λ P stable w p. stable.close w p) v

clear_buffers-IsCounted : (fd : ℕ) (s : SignalServer) → IsCounted s → IsCounted (clear_buffers fd s)
unfolding clear_buffers
clear_buffers-IsCounted fd s v =
    on_wire-IsCounted fd (λ w. just (clear_send_buffer true (clear_send_buffer false w))) s
      (λ P stable w p. stable.clear true (clear_send_buffer false w) (stable.clear false w p)) v

keep_lease-IsCounted :
    (now : ℕ) (reason : DisconnectReason) (owned : Bool) (c : ClientSession) (s : SignalServer)
    → IsCounted s
    → IsCounted (keep_lease now reason owned c s).1
unfolding keep_lease
keep_lease-IsCounted now reason owned c s v =
    if_result-IsCounted (not owned && not (is_logout reason) && not (c.room_id == 0)) _ _
      (mark_session_offline-IsCounted now c s v)
      (if_result-IsCounted
        (not owned
          && not (is_logout reason)
          && is_resume_pending c.state
          && not (c.resume_room_id == 0))
        _ _ (put_rooms-IsCounted _ s v) v)

erased-IsCounted :
    (fd : ℕ) (s : SignalServer)
    → ((c : ClientSession) → find fd s.clients ≡ some c → queued c ≡ 0)
    → IsCounted s
    → IsCounted (record s { clients = erase fd s.clients })
erased-IsCounted fd s empty_queue v = record {
  rise = erase-Rising fd 0 s.clients v.rise;
  exact = elim (Option-cases (find fd s.clients)) [
    | inl gone ↦ rw (erase_absent fd s.clients gone) v.exact
    | inr (c, found) ↦
        omega (arith, total-erase queued fd c s.clients found, empty_queue c found, v.exact)
  ];
  global_low = v.global_low;
  bounded = λ k c at. v.bounded k c (left_over k c (sym (find-erase fd k 0 s.clients v.rise) ∙ at));
}
  where
    left_over :
        (k : ℕ) (c : ClientSession)
        → (if fd == k then none else find k s.clients) ≡ some c
        → find k s.clients ≡ some c
    left_over k c e = ground arith

abbrev cleared : Wire → Bool × Wire
cleared w = just (clear_send_buffer true (clear_send_buffer false w))

clear_buffers_lem :
    (fd : ℕ) (s : SignalServer) (c : ClientSession)
    → find fd (clear_buffers fd s).clients ≡ some c
    → queued c ≡ 0
unfolding clear_buffers clear_send_buffer
clear_buffers_lem fd s c e = elim (Option-cases (find fd s.clients)) [
  | inl gone ↦
      let still : find fd (clear_buffers fd s).clients ≡ none =
        ap (λ t. find fd t.clients) (on_wire_gone fd cleared s gone) ∙ gone in
      absurd (none-some (sym still ∙ e))
  | inr (d, found) ↦
      let now_there : some (cleared (wire d s)).1.client ≡ some c =
        sym (on_wire_found fd cleared s d found) ∙ e in
      rw (← some_inj now_there) refl
]

pub unbind_client_indexes-IsCounted :
    (c : ClientSession) (s : SignalServer) → IsCounted s → IsCounted (unbind_client_indexes c s)
unfolding unbind_client_indexes
unbind_client_indexes-IsCounted c s v = same-IsCounted s _ refl refl refl v

mark_late-Rising :
    (now lo : ℕ) (cs : List (ℕ × ClientSession)) → Rising lo cs → Rising lo (mark_late now cs)
unfolding mark_late
mark_late-Rising now lo [] r = tt
mark_late-Rising now lo ((fd, c) ∷ cs) r = (r.0, mark_late-Rising now (suc fd) cs r.1)

total-mark_late :
    (now : ℕ) (cs : List (ℕ × ClientSession)) → total queued (mark_late now cs) ≡ total queued cs
unfolding mark_late total
total-mark_late now [] = refl
total-mark_late now ((fd, c) ∷ cs) = ground (arith, total-mark_late now cs)

find-mark_late :
    (now k : ℕ) (c : ClientSession) (cs : List (ℕ × ClientSession))
    → find k (mark_late now cs) ≡ some c
    → (d : ClientSession) × (find k cs ≡ some d) × (c ≡ (if is_late now d then dead d else d))
unfolding mark_late find
find-mark_late now k c [] e = absurd (none-some e)
find-mark_late now k c ((fd, d) ∷ cs) e = elim (Bool-cases (fd == k)) [
  | inl here ↦ (d, ground arith, sym (some_inj (rw here at e)))
  | inr there ↦
      let (d', found, same) = find-mark_late now k c cs (rw there at e) in (d', ground arith, same)
]

mark_late-IsCounted :
    (now : ℕ) (s : SignalServer)
    → IsCounted s
    → IsCounted (record s { clients = mark_late now s.clients })
mark_late-IsCounted now s v = record {
  rise = mark_late-Rising now 0 s.clients v.rise;
  exact = v.exact ∙ sym (total-mark_late now s.clients);
  global_low = v.global_low;
  bounded = λ k c at.
      let (d, found, same) = find-mark_late now k c s.clients at in
      let b = v.bounded k d found in rw same (marked d b);
}
  where
    marked :
        {k : ℕ} (d : ClientSession)
        → IsBounded k d
        → IsBounded k (if is_late now d then dead d else d)
    marked d b = ground (arith, b.own_fd, b.signal_low, b.data_low)

end_session_lem :
    (now : ℕ) (reason : DisconnectReason) (c : ClientSession) (s : SignalServer)
    → IsCounted s
    → IsCounted (end_session now reason c s)
      × (find c.tcp_fd (end_session now reason c s).clients ≡ none)
unfolding end_session
end_session_lem now reason c s v =
    let s0 = update_client c.tcp_fd dead s in
    let v0 = update_client-IsCounted c.tcp_fd dead s (λ d. refl) (λ d. refl) (λ d. refl) v in
    let (peer_owner, s1) = find_client_owner_by_peer_id c.peer_id s0 in
    let owned = is_other c.tcp_fd peer_owner in
    let v1 = find_client_owner_by_peer_id-IsCounted c.peer_id s0 v0 in
    let s2 = close_data c.tcp_fd s1 in
    let v2 = close_data-IsCounted c.tcp_fd s1 v1 in
    let (kept, s3) = keep_lease now reason owned c s2 in
    let v3 = keep_lease-IsCounted now reason owned c s2 v2 in
    let s4 = unbind_client_indexes (record c { data_fd = none }) s3 in
    let v4 = unbind_client_indexes-IsCounted (record c { data_fd = none }) s3 v3 in
    let keep = is_takeover reason || owned || kept in
    let s5 = if keep then s4 else release_peer_id c.peer_id s4 in
    let v5 = if-IsCounted keep v4 (release_peer_id-IsCounted c.peer_id s4 v4) in
    let s6 = clear_buffers c.tcp_fd s5 in
    let v6 = clear_buffers-IsCounted c.tcp_fd s5 v5 in
    (
      erased-IsCounted c.tcp_fd s6 (clear_buffers_lem c.tcp_fd s5) v6,
      find-erase c.tcp_fd c.tcp_fd 0 s6.clients v6.rise
          ∙ rw_same c.tcp_fd (find c.tcp_fd s6.clients),
    )
  where
    rw_same : (k : ℕ) (o : Option ClientSession) → (if k == k then none else o) ≡ none
    rw_same k o = ground arith

-- Ending a session for whatever reason takes it off the server, and the bytes that it had queued off
-- the total: the account stays exact and within its limits, with no session under the socket.
pub destroy_client_lem :
    (now fd : ℕ) (reason : DisconnectReason) (s : SignalServer)
    → IsCounted s
    → IsCounted (destroy_client now fd reason s)
      × (find fd (destroy_client now fd reason s).clients ≡ none)
unfolding destroy_client
destroy_client_lem now fd reason s v = elim (Option-cases (find fd s.clients)) [
  | inl gone ↦ rw (destroy_client, gone) (v, gone)
  | inr (c, found) ↦
      let (counted, ended) = end_session_lem now reason c s v in
      let own = (v.bounded fd c found).own_fd in
      rw (destroy_client, found)
        (counted, subst (λ k. find k (end_session now reason c s).clients ≡ none) own ended)
]

pub destroy_client-IsCounted :
    (now fd : ℕ) (reason : DisconnectReason) (s : SignalServer)
    → IsCounted s
    → IsCounted (destroy_client now fd reason s)
destroy_client-IsCounted now fd reason s v = (destroy_client_lem now fd reason s v).0

handle_client_disconnect-IsCounted :
    (now fd : ℕ) (s : SignalServer) → IsCounted s → IsCounted (handle_client_disconnect now fd s)
unfolding handle_client_disconnect
handle_client_disconnect-IsCounted now fd s v =
    option-IsCounted (find fd s.clients) s _ v (λ c. destroy_client-IsCounted now fd _ s v)

disconnect_all-IsCounted :
    (now : ℕ) (fds : List ℕ) (s : SignalServer) → IsCounted s → IsCounted (disconnect_all now fds s)
unfolding disconnect_all
disconnect_all-IsCounted now [] s v = v
disconnect_all-IsCounted now (fd ∷ fds) s v =
    disconnect_all-IsCounted now fds _ (handle_client_disconnect-IsCounted now fd s v)

-- The round over the time limits keeps the account of the queued bytes exact and within its limits,
-- whichever sessions it ends.
pub check_timeouts-IsCounted :
    (crypto : Crypto) (now : ℕ) (s : SignalServer)
    → IsCounted s
    → IsCounted (check_timeouts crypto now s)
unfolding check_timeouts
check_timeouts-IsCounted crypto now s v = cleanup_expired_leases-IsCounted crypto now _ (
    disconnect_all-IsCounted now (dead_fds now s.clients)
      (record s { clients = mark_late now s.clients }) (mark_late-IsCounted now s v))
