-- ===== src/Server/Index.antt =====
-- The peer numbers and the indexes of the sessions (server/src/signal_server.cpp): from a peer
-- number, a session number and a data socket to the socket of the session that owns it.
use vlan_connect.Prelude.{
  ◌==◌, if◌then◌else◌, ℕ, ◌+◌, ◌%◌, ◌^◌, Bool, true, false, not, ◌&&◌, ◌||◌, Option, none, some,
  List, [], ◌∷◌,
}
use vlan_connect.Prelude.Map.{find, erase, set_insert}
use vlan_connect.Room.Leases.{is_some}
use vlan_connect.Session.{
  SessionState, closing, session_has_peer_identity, session_can_bind_data_channel,
}
use vlan_connect.Session.Index.{bind_unique_session_index, unbind_session_index}
use vlan_connect.Server.State.{ClientSession, SignalServer}

-- A session that stands where the index says, under the key it was looked up by.
abbrev pub owner : ℕ → (ClientSession → Bool) → Option ClientSession → Option ClientSession
owner fd owns none = none
owner fd owns (some c) = if not (c.tcp_fd == fd) || not (owns c) then none else some c

abbrev owned_data_fd : ℕ → Option ℕ → Bool
owned_data_fd fd none = false
owned_data_fd fd (some d) = d == fd

unfoldable pub owner_in :
    ℕ → (ClientSession → Bool) → List (ℕ × ℕ) → List (ℕ × ClientSession) → Option ClientSession
owner_in key owns index clients = elim (find key index) [
  | none ↦ none
  | some fd ↦ owner fd owns (find fd clients)
]

-- What an unsuccessful look-up leaves of the index.
abbrev pruned : ℕ → Option ClientSession → List (ℕ × ℕ) → List (ℕ × ℕ)
pruned key none index = erase key index
pruned key (some c) index = index

unfoldable pub find_client_owner_by_peer_id : ℕ → SignalServer → Option ClientSession × SignalServer
unfolding owner_in
find_client_owner_by_peer_id peer s =
    let found = owner_in peer (λ c. c.peer_id == peer) s.peer_map s.clients in
    if peer == 0 then (none, s) else (found, record s { peer_map = pruned peer found s.peer_map })

unfoldable pub find_client_owner_by_secure_session_id :
    ℕ → SignalServer → Option ClientSession × SignalServer
unfolding owner_in
find_client_owner_by_secure_session_id id s =
    let found = owner_in id (λ c. c.secure_session_id == id) s.secure_session_map s.clients in
    if id == 0
    then (none, s)
    else (found, record s { secure_session_map = pruned id found s.secure_session_map })

unfoldable pub find_client_owner_by_data_fd : ℕ → SignalServer → Option ClientSession × SignalServer
unfolding owner_in
find_client_owner_by_data_fd fd s =
    let found = owner_in fd (λ c. owned_data_fd fd c.data_fd) s.data_fd_map s.clients in
    (found, record s { data_fd_map = pruned fd found s.data_fd_map })

abbrev pub usable : (ClientSession → Bool) → Option ClientSession → Option ClientSession
usable ok none = none
usable ok (some c) = if ok c then some c else none

abbrev pub is_closing : SessionState → Bool
is_closing closing = true
is_closing _ = false

unfoldable pub find_client_by_peer_id : ℕ → SignalServer → Option ClientSession × SignalServer
unfolding find_client_owner_by_peer_id session_has_peer_identity
find_client_by_peer_id peer s =
    let (found, s') = find_client_owner_by_peer_id peer s in
    let ok = λ (c : ClientSession).
      c.alive && c.server_auth_ok && c.secure_enabled && session_has_peer_identity c.state in
    (usable ok found, s')

unfoldable pub find_client_by_secure_session_id :
    ℕ → SignalServer → Option ClientSession × SignalServer
unfolding find_client_owner_by_secure_session_id
find_client_by_secure_session_id id s =
    let (found, s') = find_client_owner_by_secure_session_id id s in
    let ok = λ (c : ClientSession).
      c.alive && c.secure_enabled && c.server_auth_ok && not (is_closing c.state) in
    (usable ok found, s')

unfoldable pub find_client_by_data_fd : ℕ → SignalServer → Option ClientSession × SignalServer
unfolding find_client_owner_by_data_fd session_can_bind_data_channel
find_client_by_data_fd fd s =
    let (found, s') = find_client_owner_by_data_fd fd s in
    let ok = λ (c : ClientSession).
      c.alive
      && not (c.peer_id == 0)
      && (c.server_auth_ok && c.secure_enabled)
      && session_can_bind_data_channel c.state in
    (usable ok found, s')

-- Whether the index has the key for another socket.
abbrev pub taken_by_other : ℕ → Option ℕ → Bool
taken_by_other fd none = false
taken_by_other fd (some owner_fd) = not (owner_fd == fd)

-- A key that another socket is listed for is taken from it only when the look-up finds that
-- listing stale.
unfoldable pub bind_peer_index : ClientSession → ℕ → SignalServer → Bool × SignalServer
unfolding find_client_owner_by_peer_id bind_unique_session_index
bind_peer_index c peer s =
    let other = taken_by_other c.tcp_fd (find peer s.peer_map) in
    let (owner_found, pruned_s) = find_client_owner_by_peer_id peer s in
    let s' = if other then pruned_s else s in
    let (ok, index) = bind_unique_session_index peer c.tcp_fd s'.peer_map in
    if peer == 0
    then (false, s)
    else if other && is_some owner_found
    then (false, s')
    else (ok, record s' { peer_map = index })

unfoldable pub bind_secure_session_index : ClientSession → ℕ → SignalServer → Bool × SignalServer
unfolding find_client_owner_by_secure_session_id bind_unique_session_index
bind_secure_session_index c id s =
    let other = taken_by_other c.tcp_fd (find id s.secure_session_map) in
    let (owner_found, pruned_s) = find_client_owner_by_secure_session_id id s in
    let s' = if other then pruned_s else s in
    let (ok, index) = bind_unique_session_index id c.tcp_fd s'.secure_session_map in
    if id == 0
    then (false, s)
    else if other && is_some owner_found
    then (false, s')
    else (ok, record s' { secure_session_map = index })

unfoldable pub bind_data_fd_index : ClientSession → ℕ → SignalServer → Bool × SignalServer
unfolding find_client_owner_by_data_fd bind_unique_session_index
bind_data_fd_index c fd s =
    let other = taken_by_other c.tcp_fd (find fd s.data_fd_map) in
    let (owner_found, pruned_s) = find_client_owner_by_data_fd fd s in
    let s' = if other then pruned_s else s in
    let (ok, index) = bind_unique_session_index fd c.tcp_fd s'.data_fd_map in
    if other && is_some owner_found then (false, s') else (ok, record s' { data_fd_map = index })

abbrev unbind_data_fd : Option ℕ → ℕ → List (ℕ × ℕ) → List (ℕ × ℕ)
unbind_data_fd none fd index = index
unbind_data_fd (some d) fd index = unbind_session_index d fd index

unfoldable pub unbind_client_indexes : ClientSession → SignalServer → SignalServer
unfolding unbind_session_index
unbind_client_indexes c s = record s {
  data_fd_map = unbind_data_fd c.data_fd c.tcp_fd s.data_fd_map;
  peer_map =
      if c.peer_id == 0 then s.peer_map else unbind_session_index c.peer_id c.tcp_fd s.peer_map;
  secure_session_map =
      if c.secure_session_id == 0
      then s.secure_session_map
      else unbind_session_index c.secure_session_id c.tcp_fd s.secure_session_map;
}

unfoldable pub take_peer_id : List ℕ → SignalServer → ℕ × SignalServer
take_peer_id [] s = (s.next_peer_id, record s { next_peer_id = (s.next_peer_id + 1) % 2 ^ 32 })
take_peer_id (peer ∷ rest) s = (peer, record s { free_peer_ids = rest })

unfoldable pub allocate_peer_id : SignalServer → ℕ × SignalServer
unfolding take_peer_id
allocate_peer_id s = take_peer_id s.free_peer_ids s

unfoldable pub release_peer_id : ℕ → SignalServer → SignalServer
unfolding find_client_owner_by_peer_id
release_peer_id peer s =
    let (found, s') = find_client_owner_by_peer_id peer s in
    if peer == 0
    then s
    else if is_some found
    then s'
    else record s' { free_peer_ids = set_insert peer s'.free_peer_ids }
