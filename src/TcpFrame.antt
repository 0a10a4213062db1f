-- ===== src/TcpFrame.antt =====
-- common/tcp_frame_probe.h: whether a buffer begins with a whole frame of the signal channel.
-- A null pointer comes with length 0.
mod Tests
use vlan_connect.Prelude.{
  ltb, if◌then◌else◌, length, take, length-append, length-take, ℕ, zero, suc, ◌+◌, ◌*◌, ◌^◌, ◌≤◌,
  ◌<◌, ◌≡◌, refl, List, ◌∷◌, ◌++◌, arith,
}
use vlan_connect.Protocol.Constants.{max_tcp_msg_payload}
use vlan_connect.ByteBuffer.{u16_bytes}

pub data TcpFrameProbeStatus : Type 0 where
  need_more ready malformed : TcpFrameProbeStatus

pub record TcpFrameProbeResult : Type 0 where
  pub status : TcpFrameProbeStatus
  pub msg_type : ℕ
  pub payload_length : ℕ
  pub frame_length : ℕ

pub probe_tcp_frame : List ℕ → TcpFrameProbeResult
probe_tcp_frame (t ∷ hi ∷ lo ∷ rest) =
    let len = hi * 2 ^ 8 + lo in
    if ltb max_tcp_msg_payload len
    then record { status = malformed; msg_type = t; payload_length = len; frame_length = 0 }
    else record {
      status = if ltb (3 + length rest) (3 + len) then need_more else ready;
      msg_type = t;
      payload_length = len;
      frame_length = 3 + len;
    }
probe_tcp_frame _ = record {
  status = need_more;
  msg_type = 0;
  payload_length = 0;
  frame_length = 0;
}

-- NetConnection::sendTcpMsg and the server's sendTcpMsg put this header before the body.
pub tcp_frame : ℕ → List ℕ → List ℕ
tcp_frame t body = t ∷ (u16_bytes (length body) ++ body)

-- However the bytes of a frame arrive: before its last byte the probe asks for more, and from then
-- on it reports the frame, its type and its length, whatever follows.
pub probe_tcp_frame_lem :
    (t : ℕ) (body rest : List ℕ)
    → length body ≤ max_tcp_msg_payload
    → ((n : ℕ)
        → n < length (tcp_frame t body)
        → (probe_tcp_frame (take n (tcp_frame t body))).status ≡ need_more)
      × (probe_tcp_frame (tcp_frame t body ++ rest) ≡ record {
        status = ready;
        msg_type = t;
        payload_length = length body;
        frame_length = length (tcp_frame t body);
      })
unfolding probe_tcp_frame tcp_frame
probe_tcp_frame_lem t body rest h =
    ((λ n short. early n short), ground (arith, length-append body rest))
  where
    early :
        (n : ℕ)
        → n < length (tcp_frame t body)
        → (probe_tcp_frame (take n (tcp_frame t body))).status ≡ need_more
    early zero short = refl
    early (suc zero) short = refl
    early (suc (suc zero)) short = refl
    early (suc (suc (suc n))) short = ground (arith, length-take n body (omega arith))
