-- ===== src/Server/Accounts.antt =====
-- The account of the queued bytes over all sessions (server/src/signal_server.cpp).
pub mod Deliver
pub mod Rooms
pub mod Ending
pub mod Handlers
pub mod Dispatch
use vlan_connect.Prelude.{
  ◌==◌, if◌then◌else◌, Option-cases, length, ℕ, ◌+◌, ◌-◌, ◌≤◌, ◌≡◌, refl, sym, ap, ◌∙◌, subst, ◌⊎◌,
  inl, inr, Bool, true, false, Option, none, some, List, arith,
}
use vlan_connect.Prelude.Map.{
  find, insert, Rising, find-insert, insert-Rising, total, total-insert_old, total-erase,
}
use vlan_connect.Server.State.{max_tcp_send_buf, ClientSession, SignalServer, update_client}
use vlan_connect.Server.Send.{
  Wire, append_send_buffer, consume_send_buffer, clear_send_buffer, close_data_channel,
}
use vlan_connect.Server.Stable.{IsStable}
use vlan_connect.Server.Deliver.{wire, unwire, on_wire}
use vlan_connect.Server.Accounting.{Counted, Counted-IsStable}

abbrev pub queued : ClientSession → ℕ
queued c = length c.send_buf + length c.data_send_buf

-- A session's own number of its socket, and its two limits.
pub record IsBounded (fd : ℕ) (c : ClientSession) : Type 0 where
  pub own_fd : c.tcp_fd ≡ fd
  pub signal_low : length c.send_buf ≤ max_tcp_send_buf
  pub data_low : length c.data_send_buf ≤ max_tcp_send_buf

-- The total is exactly what the sessions queue, and it and every queue is within its limit. Every
-- session stands under its own socket.
pub record IsCounted (s : SignalServer) : Type 0 where
  pub rise : Rising 0 s.clients
  pub exact : s.global_send_bytes ≡ total queued s.clients
  pub global_low : s.global_send_bytes ≤ s.max_send_buffer_bytes
  pub bounded : (fd : ℕ) (c : ClientSession) → find fd s.clients ≡ some c → IsBounded fd c

-- Only the sessions, the total and its limit count.
pub same-IsCounted :
    (s s' : SignalServer)
    → s'.clients ≡ s.clients
    → s'.global_send_bytes ≡ s.global_send_bytes
    → s'.max_send_buffer_bytes ≡ s.max_send_buffer_bytes
    → IsCounted s
    → IsCounted s'
same-IsCounted s s' e g m v = record {
  rise = subst (Rising 0) (sym e) v.rise;
  exact = g ∙ v.exact ∙ ap (total queued) (sym e);
  global_low = omega (arith, g, m, v.global_low);
  bounded = λ fd c found. v.bounded fd c (ap (find fd) (sym e) ∙ found);
}

chosen :
    (b : Bool) (c d : ClientSession) (o : Option ClientSession)
    → (if b then some c else o) ≡ some d
    → ((b ≡ true) × (c ≡ d)) ⊎ ((b ≡ false) × (o ≡ some d))
chosen true c d o e = inl (refl, cc)
chosen false c d o e = inr (refl, e)

-- One session replaced by one whose queues and the total changed alike.
pub replaced-IsCounted :
    (fd : ℕ) (c c' : ClientSession) (s s' : SignalServer)
    → find fd s.clients ≡ some c
    → s'.clients ≡ insert fd c' s.clients
    → s'.global_send_bytes + queued c ≡ s.global_send_bytes + queued c'
    → s'.global_send_bytes ≤ s'.max_send_buffer_bytes
    → IsBounded fd c'
    → IsCounted s
    → IsCounted s'
replaced-IsCounted fd c c' s s' found e g low b v =
    let sum = total-insert_old queued fd 0 c' c s.clients v.rise found in
    let total' = ap (total queued) e in
    record {
      rise = subst (Rising 0) (sym e) (insert-Rising fd 0 c' s.clients (omega arith) v.rise);
      exact = omega (arith, sum, total', g, v.exact);
      global_low = low;
      bounded =
          λ k d at. bound k d (sym (find-insert fd k c' s.clients) ∙ ap (find k) (sym e) ∙ at);
    }
  where
    bound :
        (k : ℕ) (d : ClientSession)
        → (if fd == k then some c' else find k s.clients) ≡ some d
        → IsBounded k d
    bound k d at = elim (chosen (fd == k) c' d (find k s.clients) at) [
      | inl (same, equal) ↦
          let fd_k : fd ≡ k = ground arith in
          subst (IsBounded k) equal (subst (λ j. IsBounded j c') fd_k b)
      | inr (differ, there) ↦ v.bounded k d there
    ]

-- An operation on a session's wire that every stable predicate of wires survives.
abbrev pub Sends : (Wire → Bool × Wire) → Type 1
Sends f = (P : Wire → Type 0) → IsStable P → (w : Wire) → P w → P (f w).1

-- The parts of a wire that no send changes.
pub record Kept (fd limit : ℕ) (w : Wire) : Type 0 where
  pub own_fd : w.client.tcp_fd ≡ fd
  pub same_limit : w.limit ≡ limit

Kept-IsStable : (fd limit : ℕ) → IsStable (Kept fd limit)
unfolding append_send_buffer consume_send_buffer close_data_channel clear_send_buffer
Kept-IsStable fd limit = record {
  append = append;
  consume = consume;
  clear = clear;
  close = λ w v. omega (arith, v.own_fd, v.same_limit);
  dead = λ w v. omega arith;
  next = λ w v. omega arith;
  secure = λ cipher w v. omega arith;
  payload = λ cipher w v. omega arith;
}
  where
    append :
        (data_channel : Bool) (first second : List ℕ) (w : Wire)
        → Kept fd limit w
        → Kept fd limit (append_send_buffer data_channel first second w).1
    append true first second w v = ground arith
    append false first second w v = ground arith

    consume :
        (data_channel : Bool) (count : ℕ) (w : Wire)
        → Kept fd limit w
        → Kept fd limit (consume_send_buffer data_channel count w)
    consume true count w v = omega arith
    consume false count w v = omega arith

    clear :
        (data_channel : Bool) (w : Wire)
        → Kept fd limit w
        → Kept fd limit (clear_send_buffer data_channel w)
    clear true w v = omega arith
    clear false w v = omega arith

pub on_wire_gone :
    (fd : ℕ) (f : Wire → Bool × Wire) (s : SignalServer)
    → find fd s.clients ≡ none
    → (on_wire fd f s).1 ≡ s
unfolding on_wire
on_wire_gone fd f s gone = rw (on_wire, gone) refl

pub on_wire_found :
    (fd : ℕ) (f : Wire → Bool × Wire) (s : SignalServer) (c : ClientSession)
    → find fd s.clients ≡ some c
    → find fd (on_wire fd f s).1.clients ≡ some (f (wire c s)).1.client
unfolding on_wire
on_wire_found fd f s c found =
    rw (on_wire, found, find-insert fd fd (f (wire c s)).1.client s.clients) (ground arith)

-- A message to one session keeps the account of all.
pub on_wire-IsCounted :
    (fd : ℕ) (f : Wire → Bool × Wire) (s : SignalServer)
    → Sends f
    → IsCounted s
    → IsCounted (on_wire fd f s).1
unfolding on_wire
on_wire-IsCounted fd f s sends v = elim (Option-cases (find fd s.clients)) [
  | inl gone ↦ rw (on_wire, gone) v
  | inr (c, found) ↦ rw (on_wire, found) (stored c found)
]
  where
    stored :
        (c : ClientSession) → find fd s.clients ≡ some c → IsCounted (unwire fd (f (wire c s)).1 s)
    stored c found =
        let sum = total-erase queued fd c s.clients found in
        let others = s.global_send_bytes - queued c in
        let b = v.bounded fd c found in
        let before : Counted others (wire c s) =
          omega (arith, sum, v.exact, b.signal_low, b.data_low, v.global_low) in
        let after = sends (Counted others) (Counted-IsStable others) (wire c s) before in
        let kept =
          sends (Kept fd s.max_send_buffer_bytes) (Kept-IsStable fd s.max_send_buffer_bytes)
            (wire c s) (omega (arith, b.own_fd)) in
        let w = (f (wire c s)).1 in
        replaced-IsCounted fd c w.client s (unwire fd w s) found refl
          (omega (arith, after.exact, sum, v.exact))
          (omega (arith, after.global_low, kept.same_limit))
          (omega (arith, kept.own_fd, after.signal_low, after.data_low)) v

-- A change of a session that leaves its socket and its queues alone.
pub update_client-IsCounted :
    (fd : ℕ) (g : ClientSession → ClientSession) (s : SignalServer)
    → ((c : ClientSession) → (g c).tcp_fd ≡ c.tcp_fd)
    → ((c : ClientSession) → (g c).send_buf ≡ c.send_buf)
    → ((c : ClientSession) → (g c).data_send_buf ≡ c.data_send_buf)
    → IsCounted s
    → IsCounted (update_client fd g s)
unfolding update_client
update_client-IsCounted fd g s own signal payload v = elim (Option-cases (find fd s.clients)) [
  | inl gone ↦ rw (update_client, gone) v
  | inr (c, found) ↦
      rw (update_client, found)
        (let same = ap length (signal c) in
          let same' = ap length (payload c) in
          let b = v.bounded fd c found in
          replaced-IsCounted fd c (g c) s (record s { clients = insert fd (g c) s.clients }) found
            refl (omega (arith, same, same')) v.global_low
            (omega (arith, own c, b.own_fd, b.signal_low, b.data_low, same, same')) v)
]
