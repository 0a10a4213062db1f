-- ===== src/Server/Stable.antt =====
-- What every primitive of the send path keeps, the whole send path keeps (server/src/signal_server.cpp).
use vlan_connect.Prelude.{
  ltb, leb, if◌then◌else◌, length, ℕ, zero, suc, Bool, true, false, not, ◌&&◌, ◌||◌, List, [], ◌∷◌,
}
use vlan_connect.ByteBuffer.{u16_bytes}
use vlan_connect.Room.Leases.{is_some, is_empty}
use vlan_connect.Protocol.Constants.{max_tcp_msg_payload, msg_encrypted}
use vlan_connect.SecureFrame.Window.{SecureFrameCipher}
use vlan_connect.SecureFrame.Cipher as Cipher
use vlan_connect.SecureFrame.Cipher.{Crypto, encrypt}
use vlan_connect.Server.State.{max_tcp_send_buf}
use vlan_connect.Server.Send.{
  Wire, buffer, append_send_buffer, consume_send_buffer, clear_send_buffer, close_data_channel,
  next_answer, other_answers, kill, Round, again, blocked, broken, round_of, taken, flush_loop,
  flushed, flush_send_buf, data_flushed, flush_data_send_buf, send_msg,
  is_required_control_response, is_plain_response, send_data_frame, encrypt_for_client,
  send_by_state, send_client_msg, send_data_msg,
}

pub record IsStable (P : Wire → Type 0) : Type 0 where
  pub append :
      (data_channel : Bool) (first second : List ℕ) (w : Wire)
      → P w
      → P (append_send_buffer data_channel first second w).1
  pub consume :
      (data_channel : Bool) (count : ℕ) (w : Wire)
      → P w
      → P (consume_send_buffer data_channel count w)
  pub clear : (data_channel : Bool) (w : Wire) → P w → P (clear_send_buffer data_channel w)
  pub close : (w : Wire) → P w → P (close_data_channel w)
  pub dead : (w : Wire) → P w → P (kill w)
  pub next : (w : Wire) → P w → P (record w { answers = other_answers w.answers })
  pub secure :
      (cipher : SecureFrameCipher) (w : Wire)
      → P w
      → P (record w { client = record w.client { secure_cipher = cipher } })
  pub payload :
      (cipher : SecureFrameCipher) (w : Wire)
      → P w
      → P (record w { client = record w.client { data_cipher = cipher } })

module _ (P : Wire → Type 0) (stable : IsStable P) where
  if_stable : (b : Bool) {x y : Wire} → P x → P y → P (if b then x else y)
  if_stable true p q = p
  if_stable false p q = q

  if_stable_result :
      {A : Type 0} (b : Bool) (x y : A × Wire) → P x.1 → P y.1 → P (if b then x else y).1
  if_stable_result true x y p q = p
  if_stable_result false x y p q = q

  round_stable :
      (r : Round) (x y z : Round × Wire)
      → P x.1
      → P y.1
      → P z.1
      → P (elim r as (λ r'. Round × Wire) [ again ↦ x | blocked ↦ y | broken ↦ z ]).1
  round_stable again x y z p q r = p
  round_stable blocked x y z p q r = q
  round_stable broken x y z p q r = r

  flush_loop_stable :
      (fuel : ℕ) (data_channel : Bool) (w : Wire) → P w → P (flush_loop fuel data_channel w).1
  unfolding flush_loop
  flush_loop_stable zero data_channel w p = p
  flush_loop_stable (suc fuel) data_channel w p =
      let answer = next_answer w.answers in
      let w' : Wire = record w { answers = other_answers w.answers } in
      let q = stable.next w p in
      let on =
        flush_loop_stable fuel data_channel (consume_send_buffer data_channel (taken answer) w')
          (stable.consume data_channel (taken answer) w' q) in
      if_stable_result (is_empty (buffer data_channel w.client)) (again, w) _ p
        (round_stable (round_of answer) _ _ _ on q q)

  pub flush_send_buf_stable : (w : Wire) → P w → P (flush_send_buf w)
  unfolding flush_send_buf
  flush_send_buf_stable w p =
      ended (flush_loop (suc (length w.client.send_buf)) false w)
        (flush_loop_stable (suc (length w.client.send_buf)) false w p)
    where
      ended : (r : Round × Wire) → P r.1 → P (flushed r)
      ended (again, v) q = q
      ended (blocked, v) q = q
      ended (broken, v) q = stable.dead v q

  pub flush_data_send_buf_stable : (w : Wire) → P w → P (flush_data_send_buf w).1
  unfolding flush_data_send_buf
  flush_data_send_buf_stable w p =
      if_stable_result (is_some w.client.data_fd) _ (false, w)
        (ended (flush_loop (suc (length w.client.data_send_buf)) true w)
          (flush_loop_stable (suc (length w.client.data_send_buf)) true w p))
        p
    where
      ended : (r : Round × Wire) → P r.1 → P (data_flushed r).1
      ended (again, v) q = q
      ended (blocked, v) q = q
      ended (broken, v) q = stable.close v q

  pub send_msg_stable :
      (msg_type : ℕ) (body : List ℕ) (w : Wire) → P w → P (send_msg msg_type body w).1
  unfolding send_msg
  send_msg_stable msg_type body w p =
      let header = msg_type ∷ u16_bytes (length body) in
      let (ok, w1) = append_send_buffer false header body w in
      let p1 = stable.append false header body w p in
      let w2 = flush_send_buf w1 in
      let p2 = flush_send_buf_stable w1 p1 in
      if_stable_result (not w.client.alive) (false, w) _ p
        (if_stable_result (ltb max_tcp_msg_payload (length body)) (false, w) _ p
          (if_stable_result ok _ _
            (if_stable (ltb max_tcp_send_buf (length w2.client.send_buf)) (stable.dead w2 p2) p2)
            (if_stable (leb 3 w1.client.send_budget_failures) (stable.dead w1 p1) p1)))

  send_data_frame_stable : (body : List ℕ) (w : Wire) → P w → P (send_data_frame body w).1
  unfolding send_data_frame
  send_data_frame_stable body w p =
      let header = msg_encrypted ∷ u16_bytes (length body) in
      let (ok, w') = append_send_buffer true header body w in
      let q = stable.append true header body w p in
      if_stable_result (ltb max_tcp_msg_payload (length body)) (false, w) _ p
        (if_stable_result (not ok) (false, close_data_channel w') _ (stable.close w' q)
          (if_stable_result (ltb max_tcp_send_buf (length w'.client.data_send_buf)) _ _
            (stable.close w' q) (flush_data_send_buf_stable w' q)))

  module _ (crypto : Crypto) where
    encrypt_for_client_stable :
        (msg_type : ℕ) (body : List ℕ) (w : Wire)
        → P w
        → P (encrypt_for_client crypto msg_type body w).1
    unfolding encrypt_for_client
    encrypt_for_client_stable msg_type body w p =
        let (enc, cipher) = Cipher.encrypt crypto (msg_type ∷ body) [] w.client.secure_cipher in
        let w' : Wire = record w { client = record w.client { secure_cipher = cipher } } in
        let q = stable.secure cipher w p in if_stable (is_empty enc) (stable.dead w' q) q

    send_by_state_stable :
        (msg_type : ℕ) (body : List ℕ) (w : Wire) → P w → P (send_by_state crypto msg_type body w).1
    unfolding send_by_state
    send_by_state_stable msg_type body w p =
        let (wrapped, w') = encrypt_for_client crypto msg_type body w in
        let q = encrypt_for_client_stable msg_type body w p in
        if_stable_result (w.client.secure_enabled && w.client.server_auth_ok) _ _
          (if_stable_result (w'.client.alive && not (is_empty wrapped)) _ _
            (send_msg_stable msg_encrypted wrapped w' q) q)
          (if_stable_result (is_plain_response msg_type) _ _ (send_msg_stable msg_type body w p)
            (stable.dead w p))

    pub send_client_msg_stable :
        (msg_type : ℕ) (body : List ℕ) (w : Wire)
        → P w
        → P (send_client_msg crypto msg_type body w).1
    unfolding send_client_msg
    send_client_msg_stable msg_type body w p =
        let (ok, w') = send_by_state crypto msg_type body w in
        let q = send_by_state_stable msg_type body w p in
        if_stable_result (not w.client.alive) (false, w) _ p
          (if_stable (not ok && is_required_control_response msg_type) (stable.dead w' q) q)

    pub send_data_msg_stable :
        (msg_type : ℕ) (body : List ℕ) (w : Wire) → P w → P (send_data_msg crypto msg_type body w).1
    unfolding send_data_msg
    send_data_msg_stable msg_type body w p =
        let (enc, cipher) = Cipher.encrypt crypto (msg_type ∷ body) [] w.client.data_cipher in
        let w' : Wire = record w { client = record w.client { data_cipher = cipher } } in
        let q = stable.payload cipher w p in
        if_stable_result (not (is_some w.client.data_fd) || not w.client.alive) (false, w) _ p
          (if_stable_result (ltb max_tcp_msg_payload (length body)) (false, w) _ p
            (if_stable_result (not w.client.secure_enabled || not w.client.server_auth_ok)
              (false, w) _ p
              (if_stable_result (is_empty enc) (false, kill w') _ (stable.dead w' q)
                (send_data_frame_stable enc w' q))))
