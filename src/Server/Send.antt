-- ===== src/Server/Send.antt =====
-- The send buffers and the messages to one session (server/src/signal_server.cpp). The session's
-- reference, the count of all queued bytes, the answers of `send` and the index of the data sockets
-- are threaded as one state; a socket that is closed leaves no trace in it.
use vlan_connect.Prelude.{
  ltb, leb, ◌==◌, if◌then◌else◌, length, drop, ℕ, zero, suc, ◌+◌, ◌-◌, min, Bool, true, false, not,
  ◌&&◌, ◌||◌, Option, none, some, List, [], ◌∷◌, ◌++◌,
}
use vlan_connect.Room.Leases.{is_some, is_empty}
use vlan_connect.Protocol.Constants.{
  max_tcp_msg_payload, msg_login_resp, msg_room_created, msg_join_resp, msg_logout_ack,
  msg_server_hello, msg_server_auth_ok, msg_encrypted, msg_auth_challenge, msg_error,
}
use vlan_connect.ByteBuffer.{u16_bytes}
use vlan_connect.Session.Index.{unbind_session_index}
use vlan_connect.SecureFrame.Cipher as Cipher
use vlan_connect.SecureFrame.Cipher.{Crypto, encrypt}
use vlan_connect.Server.State.{
  max_tcp_send_buf, size_max, ClientSession, SendResult, sent, would_block, failed,
}

pub record Wire : Type 0 where
  pub client : ClientSession
  pub global : ℕ
  pub limit : ℕ
  pub answers : List SendResult
  pub data_index : List (ℕ × ℕ)

abbrev pub buffer : Bool → ClientSession → List ℕ
buffer true c = c.data_send_buf
buffer false c = c.send_buf

abbrev pub with_buffer : Bool → List ℕ → ClientSession → ClientSession
with_buffer true b c = record c { data_send_buf = b }
with_buffer false b c = record c { send_buf = b }

-- A refused append counts against a session's signal channel, up to 255 times.
abbrev pub refused : Bool → ClientSession → ClientSession
refused true c = c
refused false c =
    if ltb c.send_budget_failures 255
    then record c { send_budget_failures = c.send_budget_failures + 1 }
    else c

abbrev pub accepted : Bool → ClientSession → ClientSession
accepted true c = c
accepted false c = record c { send_budget_failures = 0 }

unfoldable pub append_send_buffer : Bool → List ℕ → List ℕ → Wire → Bool × Wire
append_send_buffer data_channel first second w =
    let target = buffer data_channel w.client in
    let added = length first + length second in
    let full =
      ltb (max_tcp_send_buf - min added max_tcp_send_buf) (length target)
      || ltb max_tcp_send_buf added
      || ltb (w.limit - min added w.limit) w.global
      || ltb w.limit added in
    if ltb (size_max - length second) (length first)
    then (false, w)
    else if full
    then (false, record w { client = refused data_channel w.client })
    else (
      true,
      record w {
        client =
            accepted data_channel (with_buffer data_channel (target ++ (first ++ second)) w.client);
        global = w.global + added;
      },
    )

unfoldable pub consume_send_buffer : Bool → ℕ → Wire → Wire
consume_send_buffer data_channel count w =
    let target = buffer data_channel w.client in
    let gone = min count (length target) in
    record w {
      client = with_buffer data_channel (drop gone target) w.client;
      global = w.global - gone;
    }

unfoldable pub clear_send_buffer : Bool → Wire → Wire
clear_send_buffer data_channel w = record w {
  client = with_buffer data_channel [] w.client;
  global = w.global - length (buffer data_channel w.client);
}

abbrev closed_index : Option ℕ → ℕ → List (ℕ × ℕ) → List (ℕ × ℕ)
closed_index none fd index = index
closed_index (some d) fd index = unbind_session_index d fd index

unfoldable pub close_data_channel : Wire → Wire
unfolding clear_send_buffer unbind_session_index
close_data_channel w = clear_send_buffer true (record w {
  client = record w.client { data_fd = none };
  data_index = closed_index w.client.data_fd w.client.tcp_fd w.data_index;
})

-- The next answer of `send`.
abbrev pub next_answer : List SendResult → SendResult
next_answer [] = would_block
next_answer (a ∷ later) = a

abbrev pub other_answers : List SendResult → List SendResult
other_answers [] = []
other_answers (a ∷ later) = later

abbrev pub kill : Wire → Wire
kill w = record w { client = record w.client { alive = false } }

-- A round of a loop that sends: on, done, or given up.
pub data Round : Type 0 where
  again blocked broken : Round

abbrev pub round_of : SendResult → Round
round_of (sent zero) = broken
round_of (sent (suc n)) = again
round_of would_block = blocked
round_of failed = broken

abbrev pub taken : SendResult → ℕ
taken (sent n) = n
taken would_block = 0
taken failed = 0

-- `while (!sendBuf.empty())`, on fuel; a round that goes on takes a byte at least.
unfoldable pub flush_loop : ℕ → Bool → Wire → Round × Wire
unfolding consume_send_buffer
flush_loop zero data_channel w = (again, w)
flush_loop (suc fuel) data_channel w =
    let answer = next_answer w.answers in
    let w' = record w { answers = other_answers w.answers } in
    let rest = flush_loop fuel data_channel (consume_send_buffer data_channel (taken answer) w') in
    if is_empty (buffer data_channel w.client)
    then (again, w)
    else elim (round_of answer) [ again ↦ rest | blocked ↦ (blocked, w') | broken ↦ (broken, w') ]

abbrev pub flushed : Round × Wire → Wire
flushed (again, w) = w
flushed (blocked, w) = w
flushed (broken, w) = kill w

unfoldable pub flush_send_buf : Wire → Wire
unfolding flush_loop
flush_send_buf w = flushed (flush_loop (suc (length w.client.send_buf)) false w)

abbrev pub data_flushed : Round × Wire → Bool × Wire
data_flushed (again, w) = (true, w)
data_flushed (blocked, w) = (true, w)
data_flushed (broken, w) = (false, close_data_channel w)

unfoldable pub flush_data_send_buf : Wire → Bool × Wire
unfolding flush_loop close_data_channel
flush_data_send_buf w =
    if is_some w.client.data_fd
    then data_flushed (flush_loop (suc (length w.client.data_send_buf)) true w)
    else (false, w)

unfoldable pub send_msg : ℕ → List ℕ → Wire → Bool × Wire
unfolding append_send_buffer flush_send_buf
send_msg msg_type body w =
    let (ok, w1) = append_send_buffer false (msg_type ∷ u16_bytes (length body)) body w in
    let w2 = flush_send_buf w1 in
    let w3 = if ltb max_tcp_send_buf (length w2.client.send_buf) then kill w2 else w2 in
    if not w.client.alive
    then (false, w)
    else if ltb max_tcp_msg_payload (length body)
    then (false, w)
    else if ok
    then (w3.client.alive, w3)
    else (false, if leb 3 w1.client.send_budget_failures then kill w1 else w1)

unfoldable pub is_required_control_response : ℕ → Bool
is_required_control_response t =
    t == msg_login_resp
    || t == msg_room_created
    || t == msg_join_resp
    || t == msg_auth_challenge
    || t == msg_logout_ack
    || t == msg_error

-- What may go out before the session has its keys.
unfoldable pub is_plain_response : ℕ → Bool
is_plain_response t = t == msg_server_hello || t == msg_server_auth_ok || t == msg_error

unfoldable pub send_data_frame : List ℕ → Wire → Bool × Wire
unfolding append_send_buffer close_data_channel flush_data_send_buf
send_data_frame body w =
    let (ok, w') = append_send_buffer true (msg_encrypted ∷ u16_bytes (length body)) body w in
    if ltb max_tcp_msg_payload (length body)
    then (false, w)
    else if not ok
    then (false, close_data_channel w')
    else if ltb max_tcp_send_buf (length w'.client.data_send_buf)
    then (false, close_data_channel w')
    else flush_data_send_buf w'

module _ (crypto : Crypto) where
  unfoldable pub encrypt_for_client : ℕ → List ℕ → Wire → List ℕ × Wire
  unfolding Cipher.encrypt
  encrypt_for_client msg_type body w =
      let (enc, cipher) = Cipher.encrypt crypto (msg_type ∷ body) [] w.client.secure_cipher in
      let w' = record w { client = record w.client { secure_cipher = cipher } } in
      (enc, if is_empty enc then kill w' else w')

  unfoldable pub send_by_state : ℕ → List ℕ → Wire → Bool × Wire
  unfolding encrypt_for_client send_msg is_plain_response
  send_by_state msg_type body w =
      let (wrapped, w') = encrypt_for_client msg_type body w in
      if w.client.secure_enabled && w.client.server_auth_ok
      then if w'.client.alive && not (is_empty wrapped)
        then send_msg msg_encrypted wrapped w'
        else (false, w')
      else if is_plain_response msg_type
      then send_msg msg_type body w
      else (false, kill w)

  unfoldable pub send_client_msg : ℕ → List ℕ → Wire → Bool × Wire
  unfolding send_by_state is_required_control_response
  send_client_msg msg_type body w =
      let (ok, w') = send_by_state msg_type body w in
      if not w.client.alive
      then (false, w)
      else (ok, if not ok && is_required_control_response msg_type then kill w' else w')

  unfoldable pub send_data_msg : ℕ → List ℕ → Wire → Bool × Wire
  unfolding Cipher.encrypt send_data_frame
  send_data_msg msg_type body w =
      let (enc, cipher) = Cipher.encrypt crypto (msg_type ∷ body) [] w.client.data_cipher in
      let w' = record w { client = record w.client { data_cipher = cipher } } in
      if not (is_some w.client.data_fd) || not w.client.alive
      then (false, w)
      else if ltb max_tcp_msg_payload (length body)
      then (false, w)
      else if not w.client.secure_enabled || not w.client.server_auth_ok
      then (false, w)
      else if is_empty enc
      then (false, kill w')
      else send_data_frame enc w'
