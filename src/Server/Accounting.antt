-- ===== src/Server/Accounting.antt =====
-- The account of the queued bytes (server/src/signal_server.cpp): the send buffers of one session.
use vlan_connect.Prelude.{
  length, length-append, length-drop, ℕ, ◌+◌, ◌≤◌, min, ◌≡◌, Bool, true, false, List, ◌++◌, arith,
}
use vlan_connect.Server.State.{max_tcp_send_buf}
use vlan_connect.Server.Stable.{IsStable}
use vlan_connect.Server.Send.{
  Wire, append_send_buffer, consume_send_buffer, clear_send_buffer, close_data_channel,
}

-- The total counts what this session queues and `others` bytes of the other sessions; the buffers
-- and the total are within their limits.
pub record Counted (others : ℕ) (w : Wire) : Type 0 where
  pub exact : w.global ≡ others + (length w.client.send_buf + length w.client.data_send_buf)
  pub signal_low : length w.client.send_buf ≤ max_tcp_send_buf
  pub data_low : length w.client.data_send_buf ≤ max_tcp_send_buf
  pub global_low : w.global ≤ w.limit

module _ (others : ℕ) where
  append_send_buffer-Counted :
      (data_channel : Bool) (first second : List ℕ) (w : Wire)
      → Counted others w
      → Counted others (append_send_buffer data_channel first second w).1
  unfolding append_send_buffer
  append_send_buffer-Counted true first second w v =
      ground
        (arith, length-append w.client.data_send_buf (first ++ second), length-append first second)
  append_send_buffer-Counted false first second w v =
      ground (arith, length-append w.client.send_buf (first ++ second), length-append first second)

  consume_send_buffer-Counted :
      (data_channel : Bool) (count : ℕ) (w : Wire)
      → Counted others w
      → Counted others (consume_send_buffer data_channel count w)
  unfolding consume_send_buffer
  consume_send_buffer-Counted true count w v =
      ground (arith, length-drop (min count (length w.client.data_send_buf)) w.client.data_send_buf)
  consume_send_buffer-Counted false count w v =
      ground (arith, length-drop (min count (length w.client.send_buf)) w.client.send_buf)

  clear_send_buffer-Counted :
      (data_channel : Bool) (w : Wire)
      → Counted others w
      → Counted others (clear_send_buffer data_channel w)
  unfolding clear_send_buffer
  clear_send_buffer-Counted true w v = ground arith
  clear_send_buffer-Counted false w v = ground arith

  pub close_data_channel-Counted :
      (w : Wire) → Counted others w → Counted others (close_data_channel w)
  unfolding close_data_channel
  close_data_channel-Counted w v = ground arith

  -- Sending any message on either channel of a session, whatever the system answers, keeps the
  -- account exact and within the limits.
  pub Counted-IsStable : IsStable (Counted others)
  Counted-IsStable = record {
    append = append_send_buffer-Counted;
    consume = consume_send_buffer-Counted;
    clear = clear_send_buffer-Counted;
    close = close_data_channel-Counted;
    dead = λ w v. omega arith;
    next = λ w v. omega arith;
    secure = λ cipher w v. omega arith;
    payload = λ cipher w v. omega arith;
  }
