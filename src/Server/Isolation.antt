-- ===== src/Server/Isolation.antt =====
-- onTcpRelayData (server/src/signal_server.cpp): data passes between members of one room only.
use vlan_connect.Prelude.{
  ◌==◌, if◌then◌else◌, Bool-cases, Option-cases, none-some, some_inj, ℕ, ◌≡◌, refl, sym, ap, ◌∙◌,
  ◌≢◌, ◌⊎◌, inl, inr, Bool, true, false, not, ◌&&◌, ◌||◌, Option, none, some, List, arith,
}
use vlan_connect.Prelude.Map.{find, find-insert}
use vlan_connect.SecureFrame.Cipher.{Crypto}
use vlan_connect.Session.{session_has_peer_identity}
use vlan_connect.Server.State.{ClientSession, SignalServer}
use vlan_connect.Server.Index.{
  owner, owner_in, find_client_owner_by_peer_id, usable, find_client_by_peer_id,
}
use vlan_connect.Server.Send.{Wire, send_client_msg, send_data_msg}
use vlan_connect.Server.Deliver.{wire, on_wire, send_client, send_data}
use vlan_connect.Server.Handlers.{
  parse_relay, same_room, relay_body, forward, relay_to, relay_read, on_tcp_relay_data,
}
use vlan_connect.Room.Leases.{is_some}
use vlan_connect.Protocol.Constants.{msg_tcp_relay_data}
use vlan_connect.Protocol.Traffic.{traffic_tcp, traffic_udp, traffic_value}

-- A session that a look-up by index finds.
pub record Owns (key : ℕ) (owns : ClientSession → Bool) (index : List (ℕ × ℕ))
    (clients : List (ℕ × ClientSession)) (c : ClientSession) : Type 0 where
  pub listed : find key index ≡ some c.tcp_fd
  pub there : find c.tcp_fd clients ≡ some c
  pub owned : owns c ≡ true

passed :
    (a b : Bool) (d c : ClientSession)
    → (if not a || not b then none else some d) ≡ some c
    → (a ≡ true) × (b ≡ true) × (d ≡ c)
passed true true d c h = (refl, refl, some_inj h)
passed true false d c h = absurd (none-some h)
passed false true d c h = absurd (none-some h)
passed false false d c h = absurd (none-some h)

usable_inv :
    (ok : ClientSession → Bool) (o : Option ClientSession) (c : ClientSession)
    → usable ok o ≡ some c
    → (o ≡ some c) × (ok c ≡ true)
usable_inv ok none c h = absurd (none-some h)
usable_inv ok (some d) c h = elim (Bool-cases (ok d)) [
  | inl yes_ok ↦
      let equal : d ≡ c = some_inj (rw yes_ok at h) in (ap some equal, ap ok (sym equal) ∙ yes_ok)
  | inr not_ok ↦ absurd (none-some (rw not_ok at h))
]

pub owner_in_lem :
    (key : ℕ) (owns : ClientSession → Bool) (index : List (ℕ × ℕ))
    (clients : List (ℕ × ClientSession)) (c : ClientSession)
    → owner_in key owns index clients ≡ some c
    → Owns key owns index clients c
unfolding owner_in
owner_in_lem key owns index clients c e = elim (Option-cases (find key index)) [
  | inl gone ↦ absurd (none-some (rw (owner_in, gone) at e))
  | inr (fd, listed) ↦ at fd listed (find fd clients) refl (rw (owner_in, listed) at e)
]
  where
    at :
        (fd : ℕ)
        → find key index ≡ some fd
        → (o : Option ClientSession) → find fd clients ≡ o
        → owner fd owns o ≡ some c
        → Owns key owns index clients c
    at fd listed none there h = absurd (none-some h)
    at fd listed (some d) there h =
        let (own, owned, equal) = passed (d.tcp_fd == fd) (owns d) d c h in
        let own_fd : d.tcp_fd ≡ fd = ground arith in
        let fd_c : fd ≡ c.tcp_fd = sym own_fd ∙ ap (λ x. x.tcp_fd) equal in
        record {
          listed = listed ∙ ap some fd_c;
          there = ap (λ j. find j clients) (sym fd_c) ∙ there ∙ ap some equal;
          owned = ap owns (sym equal) ∙ owned;
        }

-- A peer number other than 0 that has an owner.
pub find_client_owner_by_peer_id_lem :
    (peer : ℕ) (s : SignalServer) (c : ClientSession)
    → (find_client_owner_by_peer_id peer s).0 ≡ some c
    → Owns peer (λ d. d.peer_id == peer) s.peer_map s.clients c
unfolding find_client_owner_by_peer_id
find_client_owner_by_peer_id_lem peer s c e = elim (Bool-cases (peer == 0)) [
  | inl zero_peer ↦ absurd (none-some (rw zero_peer at e))
  | inr some_peer ↦
      owner_in_lem peer (λ d. d.peer_id == peer) s.peer_map s.clients c (rw some_peer at e)
]

-- What `findClientByPeerId` finds is the session of the peer, under its own socket, alive and with
-- its keys.
pub find_client_by_peer_id_lem :
    (peer : ℕ) (s : SignalServer) (c : ClientSession)
    → (find_client_by_peer_id peer s).0 ≡ some c
    → (find peer s.peer_map ≡ some c.tcp_fd)
      × (find c.tcp_fd s.clients ≡ some c)
      × (c.peer_id ≡ peer)
      × (c.alive ≡ true)
unfolding find_client_by_peer_id
find_client_by_peer_id_lem peer s c e =
    let (found, ok) =
      usable_inv
        (λ (d : ClientSession).
          d.alive && d.server_auth_ok && d.secure_enabled && session_has_peer_identity d.state)
        (find_client_owner_by_peer_id peer s).0 c e in
    let owned = find_client_owner_by_peer_id_lem peer s c found in
    (owned.listed, owned.there, ground (arith, owned.owned), ground (arith, ok))

find_client-clients :
    (peer : ℕ) (s : SignalServer) → (find_client_by_peer_id peer s).1.clients ≡ s.clients
unfolding find_client_by_peer_id find_client_owner_by_peer_id
find_client-clients peer s = elim (Bool-cases (peer == 0)) [
  | inl zero_peer ↦ rw zero_peer refl
  | inr some_peer ↦ rw some_peer refl
]

on_wire_other :
    (fd k : ℕ) (f : Wire → Bool × Wire) (s : SignalServer)
    → fd ≢ k
    → find k (on_wire fd f s).1.clients ≡ find k s.clients
unfolding on_wire
on_wire_other fd k f s differ = elim (Option-cases (find fd s.clients)) [
  | inl gone ↦ rw (on_wire, gone) refl
  | inr (c, found) ↦
      rw (on_wire, found, find-insert fd k (f (wire c s)).1.client s.clients) (ground arith)
]

-- A session that a message may reach: the sender is in its room, and the message names both.
pub record Reached (fd : ℕ) (body : List ℕ) (s : SignalServer) (d : ClientSession) : Type 0 where
  pub sender : ClientSession
  pub found : find fd s.clients ≡ some sender
  pub together : same_room sender d ≡ true
  pub traffic_class : ℕ
  pub payload : List ℕ
  pub named : parse_relay body ≡ some ((sender.peer_id, d.peer_id, traffic_class), payload)

module _ (crypto : Crypto) where
  forward_other :
      (dst : ClientSession) (body : List ℕ) (k : ℕ) (s : SignalServer)
      → dst.tcp_fd ≢ k
      → find k (forward crypto dst body s).clients ≡ find k s.clients
  unfolding forward send_data send_client
  forward_other dst body k s differ =
      let by_data =
        on_wire_other dst.tcp_fd k (send_data_msg crypto msg_tcp_relay_data body) s differ in
      let by_signal = λ (t : SignalServer).
        on_wire_other dst.tcp_fd k (send_client_msg crypto msg_tcp_relay_data body) t differ in
      let s1 = (send_data crypto dst.tcp_fd msg_tcp_relay_data body s).1 in
      elim (Bool-cases (is_some dst.data_fd)) [
        | inl channel ↦
            rw channel
              (elim (Bool-cases (send_data crypto dst.tcp_fd msg_tcp_relay_data body s).0) [
                | inl sent_data ↦ rw sent_data by_data
                | inr refused_data ↦ rw refused_data (by_signal s1 ∙ by_data)
              ])
        | inr no_channel ↦ rw no_channel (by_signal s)
      ]

  -- Only a session of the sender's room, and with the number that the message names, is touched.
  relay_to_isolation :
      (c : ClientSession) (dst_id traffic_class : ℕ) (payload : List ℕ) (s : SignalServer) (k : ℕ)
      (d : ClientSession)
      → find k s.clients ≡ some d
      → (find k (relay_to crypto c dst_id traffic_class payload s).clients ≡ some d)
        ⊎ ((same_room c d ≡ true) × (d.peer_id ≡ dst_id))
  unfolding relay_to
  relay_to_isolation c dst_id traffic_class payload s k d at =
      let same = find_client-clients dst_id s in
      elim (Option-cases (find_client_by_peer_id dst_id s).0) [
        | inl gone ↦ rw (relay_to, gone) (inl (ap (find k) same ∙ at))
        | inr (dst, found) ↦ rw (relay_to, found) (to_found dst found)
      ]
    where
      to_found :
          (dst : ClientSession)
          → (find_client_by_peer_id dst_id s).0 ≡ some dst
          → (find k
                (if same_room c dst
                  then forward crypto dst
                      (relay_body c dst_id traffic_class payload)
                      (find_client_by_peer_id dst_id s).1
                  else (find_client_by_peer_id dst_id s).1).clients
              ≡ some d)
            ⊎ ((same_room c d ≡ true) × (d.peer_id ≡ dst_id))
      to_found dst found =
          let same = find_client-clients dst_id s in
          let s1 = (find_client_by_peer_id dst_id s).1 in
          let (listed, there, peer, live) = find_client_by_peer_id_lem dst_id s dst found in
          elim (Bool-cases (same_room c dst)) [
            | inr apart ↦ rw apart (inl (ap (find k) same ∙ at))
            | inl together ↦ rw together (elim (Bool-cases (dst.tcp_fd == k)) [
              | inl here ↦
                  let fd_k : dst.tcp_fd ≡ k = ground arith in
                  let equal : dst ≡ d =
                    some_inj (sym there ∙ ap (λ j. find j s.clients) fd_k ∙ at) in
                  inr (
                    ap (same_room c) (sym equal) ∙ together,
                    ap (λ x. x.peer_id) (sym equal) ∙ peer,
                  )
              | inr there_not ↦ inl (
                  forward_other dst (relay_body c dst_id traffic_class payload) k s1
                    (λ e. ground arith)
                  ∙ ap (find k) same
                  ∙ at)
            ])
          ]

  relay_read_isolation :
      (c : ClientSession) (p : (ℕ × ℕ × ℕ) × List ℕ) (s : SignalServer) (k : ℕ) (d : ClientSession)
      → find k s.clients ≡ some d
      → (find k (relay_read crypto c p s).clients ≡ some d)
        ⊎ ((same_room c d ≡ true) × (p.0.0 ≡ c.peer_id) × (p.0.1 ≡ d.peer_id))
  unfolding relay_read
  relay_read_isolation c ((source, dst_id, traffic_class), payload) s k d at =
      elim (Bool-cases (source == c.peer_id)) [
        | inr forged ↦ rw forged (inl at)
        | inl true_source ↦
            elim (Bool-cases (
              not (traffic_class == traffic_value traffic_tcp)
              && not (traffic_class == traffic_value traffic_udp))) [
                | inl unknown ↦ rw (true_source, unknown) (inl at)
                | inr known ↦
                    rw (true_source, known)
                      (elim (relay_to_isolation c dst_id traffic_class payload s k d at) [
                        | inl kept ↦ inl kept
                        | inr (together, peer) ↦ inr (together, ground arith, sym peer)
                      ])
              ]
      ]

  -- A MSG_TCP_RELAY_DATA leaves each session as it was, unless that session is in the sender's own
  -- room, the message names its number and also names the sender truly as its source.
  pub on_tcp_relay_data_isolation :
      (fd : ℕ) (body : List ℕ) (s : SignalServer) (k : ℕ) (d : ClientSession)
      → find k s.clients ≡ some d
      → (find k (on_tcp_relay_data crypto fd body s).clients ≡ some d) ⊎ Reached fd body s d
  unfolding on_tcp_relay_data
  on_tcp_relay_data_isolation fd body s k d at = elim (Option-cases (find fd s.clients)) [
    | inl gone ↦ rw (on_tcp_relay_data, gone) (inl at)
    | inr (c, mine) ↦ elim (Option-cases (parse_relay body)) [
      | inl bad ↦ rw (on_tcp_relay_data, mine, bad) (inl at)
      | inr (p, parsed) ↦
          rw (on_tcp_relay_data, mine, parsed)
            (widen c mine p parsed (relay_read_isolation c p s k d at))
    ]
  ]
    where
      widen :
          (c : ClientSession)
          → find fd s.clients ≡ some c
          → (p : (ℕ × ℕ × ℕ) × List ℕ) → parse_relay body ≡ some p
          → (find k (relay_read crypto c p s).clients ≡ some d)
            ⊎ ((same_room c d ≡ true) × (p.0.0 ≡ c.peer_id) × (p.0.1 ≡ d.peer_id))
          → (find k (relay_read crypto c p s).clients ≡ some d) ⊎ Reached fd body s d
      widen c mine p parsed (inl kept) = inl kept
      widen c mine ((source, dst_id, traffic_class), payload) parsed (inr (together, from, to)) =
          inr (record {
            sender = c;
            found = mine;
            together = together;
            traffic_class = traffic_class;
            payload = payload;
            named =
                parsed
                ∙ ap (λ (q : ℕ × ℕ). some ((q.0, q.1, traffic_class), payload))
                    (λ i. (from i, to i));
          })
