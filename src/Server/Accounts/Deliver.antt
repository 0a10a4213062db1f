-- ===== src/Server/Accounts/Deliver.antt =====
-- The messages of the server (server/src/signal_server.cpp) keep the account of the queued bytes.
use vlan_connect.Prelude.{
  ltb, ◌==◌, if◌then◌else◌, length, ℕ, ◌+◌, ◌%◌, ◌^◌, refl, Bool, true, false, Option, none, some,
  List, [], ◌∷◌, map,
}
use vlan_connect.Prelude.Map.{find}
use vlan_connect.Room.Leases.{is_empty, peer_ids}
use vlan_connect.Room.Manager.{get_room}
use vlan_connect.Protocol.Constants.{
  room_list_page_payload, msg_relay_ready, msg_room_list, msg_room_list_push, msg_error,
}
use vlan_connect.SecureFrame.Cipher.{Crypto}
use vlan_connect.Server.State.{ClientSession, SignalServer}
use vlan_connect.Server.Index.{find_client_owner_by_peer_id, find_client_by_peer_id}
use vlan_connect.Server.Send.{send_client_msg, send_data_msg}
use vlan_connect.Server.Stable.{send_client_msg_stable, send_data_msg_stable}
use vlan_connect.Server.Deliver.{
  send_client, send_data, send_error, send_to_peer, send_to_peers, broadcast_to_room,
  send_relay_ready, relay_pair, relay_pairs, notify_relay_peers,
}
use vlan_connect.Server.RoomList.{
  collect_room_list_state, delta_bytes, room_list_delta, listens, push_to_clients,
  broadcast_room_list_push, send_pages,
}
use vlan_connect.Server.Accounts.{IsCounted, same-IsCounted, on_wire-IsCounted}
use Prim.Native.String.{String}

pub if-IsCounted :
    (b : Bool) {x y : SignalServer} → IsCounted x → IsCounted y → IsCounted (if b then x else y)
if-IsCounted true p q = p
if-IsCounted false p q = q

pub if_result-IsCounted :
    {A : Type 0} (b : Bool) (x y : A × SignalServer)
    → IsCounted x.1
    → IsCounted y.1
    → IsCounted (if b then x else y).1
if_result-IsCounted true x y p q = p
if_result-IsCounted false x y p q = q

-- The case of an option's value, in the shape in which the operations match on it.
pub option-IsCounted :
    {A : Type 0} (o : Option A) (x : SignalServer) (y : A → SignalServer)
    → IsCounted x
    → ((a : A) → IsCounted (y a))
    → IsCounted (elim o as (λ o'. SignalServer) [ none ↦ x | some a ↦ y a ])
option-IsCounted none x y p q = p
option-IsCounted (some a) x y p q = q a

pub find_client_owner_by_peer_id-IsCounted :
    (peer : ℕ) (s : SignalServer) → IsCounted s → IsCounted (find_client_owner_by_peer_id peer s).1
unfolding find_client_owner_by_peer_id
find_client_owner_by_peer_id-IsCounted peer s v =
    if_result-IsCounted (peer == 0) (none, s) _ v (same-IsCounted s _ refl refl refl v)

pub find_client_by_peer_id-IsCounted :
    (peer : ℕ) (s : SignalServer) → IsCounted s → IsCounted (find_client_by_peer_id peer s).1
unfolding find_client_by_peer_id
find_client_by_peer_id-IsCounted peer s v = find_client_owner_by_peer_id-IsCounted peer s v

module _ (crypto : Crypto) where
  pub send_client-IsCounted :
      (fd msg_type : ℕ) (body : List ℕ) (s : SignalServer)
      → IsCounted s
      → IsCounted (send_client crypto fd msg_type body s).1
  unfolding send_client
  send_client-IsCounted fd msg_type body s v =
      on_wire-IsCounted fd (send_client_msg crypto msg_type body) s
        (λ P stable w p. send_client_msg_stable P stable crypto msg_type body w p) v

  pub send_data-IsCounted :
      (fd msg_type : ℕ) (body : List ℕ) (s : SignalServer)
      → IsCounted s
      → IsCounted (send_data crypto fd msg_type body s).1
  unfolding send_data
  send_data-IsCounted fd msg_type body s v =
      on_wire-IsCounted fd (send_data_msg crypto msg_type body) s
        (λ P stable w p. send_data_msg_stable P stable crypto msg_type body w p) v

  pub send_error-IsCounted :
      (fd : ℕ) (text : String) (code : ℕ) (s : SignalServer)
      → IsCounted s
      → IsCounted (send_error crypto fd text code s)
  unfolding send_error
  send_error-IsCounted fd text code s v = send_client-IsCounted fd msg_error _ s v

  send_to_peer-IsCounted :
      (peer msg_type : ℕ) (body : List ℕ) (s : SignalServer)
      → IsCounted s
      → IsCounted (send_to_peer crypto peer msg_type body s)
  unfolding send_to_peer
  send_to_peer-IsCounted peer msg_type body s v =
      let found = find_client_by_peer_id-IsCounted peer s v in
      option-IsCounted (find_client_by_peer_id peer s).0 _ _ found
        (λ c. send_client-IsCounted c.tcp_fd msg_type body _ found)

  send_to_peers-IsCounted :
      (peers : List ℕ) (exclude msg_type : ℕ) (body : List ℕ) (s : SignalServer)
      → IsCounted s
      → IsCounted (send_to_peers crypto peers exclude msg_type body s)
  unfolding send_to_peers
  send_to_peers-IsCounted [] exclude msg_type body s v = v
  send_to_peers-IsCounted (peer ∷ peers) exclude msg_type body s v =
      send_to_peers-IsCounted peers exclude msg_type body
        (if peer == exclude then s else send_to_peer crypto peer msg_type body s)
        (if-IsCounted (peer == exclude) v (send_to_peer-IsCounted peer msg_type body s v))

  pub broadcast_to_room-IsCounted :
      (room_id msg_type : ℕ) (body : List ℕ) (exclude : ℕ) (s : SignalServer)
      → IsCounted s
      → IsCounted (broadcast_to_room crypto room_id msg_type body exclude s)
  unfolding broadcast_to_room
  broadcast_to_room-IsCounted room_id msg_type body exclude s v =
      option-IsCounted (get_room room_id s.rooms) s _ v
        (λ room. send_to_peers-IsCounted (peer_ids room) exclude msg_type body s v)

  pub send_relay_ready-IsCounted :
      (fd peer : ℕ) (s : SignalServer) → IsCounted s → IsCounted (send_relay_ready crypto fd peer s)
  unfolding send_relay_ready
  send_relay_ready-IsCounted fd peer s v = send_client-IsCounted fd msg_relay_ready _ s v

  relay_pair-IsCounted :
      (c : ClientSession) (peer : ℕ) (s : SignalServer)
      → IsCounted s
      → IsCounted (relay_pair crypto c peer s)
  unfolding relay_pair
  relay_pair-IsCounted c peer s v =
      let found = find_client_by_peer_id-IsCounted peer s v in
      option-IsCounted (find_client_by_peer_id peer s).0 _ _ found (λ other.
        send_relay_ready-IsCounted other.tcp_fd c.peer_id _
          (send_relay_ready-IsCounted c.tcp_fd other.peer_id _ found))

  relay_pairs-IsCounted :
      (c : ClientSession) (peers : List ℕ) (s : SignalServer)
      → IsCounted s
      → IsCounted (relay_pairs crypto c peers s)
  unfolding relay_pairs
  relay_pairs-IsCounted c [] s v = v
  relay_pairs-IsCounted c (peer ∷ peers) s v =
      relay_pairs-IsCounted c peers (if peer == c.peer_id then s else relay_pair crypto c peer s)
        (if-IsCounted (peer == c.peer_id) v (relay_pair-IsCounted c peer s v))

  pub notify_relay_peers-IsCounted :
      (c : ClientSession) (s : SignalServer)
      → IsCounted s
      → IsCounted (notify_relay_peers crypto c s)
  unfolding notify_relay_peers
  notify_relay_peers-IsCounted c s v =
      option-IsCounted (get_room c.room_id s.rooms) s _ v
        (λ room. relay_pairs-IsCounted c (peer_ids room) s v)

  push_to_clients-IsCounted :
      (fds : List ℕ) (body : List ℕ) (s : SignalServer)
      → IsCounted s
      → IsCounted (push_to_clients crypto fds body s)
  unfolding push_to_clients
  push_to_clients-IsCounted [] body s v = v
  push_to_clients-IsCounted (fd ∷ fds) body s v = push_to_clients-IsCounted fds body _ (
      if-IsCounted (listens (find fd s.clients))
        (send_client-IsCounted fd msg_room_list_push body s v) v)

  pub broadcast_room_list_push-IsCounted :
      (s : SignalServer) → IsCounted s → IsCounted (broadcast_room_list_push crypto s)
  unfolding broadcast_room_list_push
  broadcast_room_list_push-IsCounted s v =
      let current = collect_room_list_state s in
      let operations = room_list_delta s.published_rooms current in
      let revision = (s.room_list_revision + 1) % 2 ^ 64 in
      let body = delta_bytes s.room_list_revision revision operations in
      let s1 : SignalServer = record s { room_list_revision = revision } in
      let s2 : SignalServer = record s1 { published_rooms = current } in
      if-IsCounted (is_empty operations) v (
        if-IsCounted (ltb room_list_page_payload (length body))
          (same-IsCounted s s1 refl refl refl v)
          (push_to_clients-IsCounted (map (λ p. p.0) s.clients) body s2
            (same-IsCounted s s2 refl refl refl v)))

  pub send_pages-IsCounted :
      (fd : ℕ) (pages : List (List ℕ)) (s : SignalServer)
      → IsCounted s
      → IsCounted (send_pages crypto fd pages s)
  unfolding send_pages
  send_pages-IsCounted fd [] s v = v
  send_pages-IsCounted fd (page ∷ pages) s v =
      send_pages-IsCounted fd pages _ (send_client-IsCounted fd msg_room_list page s v)
