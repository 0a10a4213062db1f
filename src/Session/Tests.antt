-- ===== src/Session/Tests.antt =====
-- Messages and sockets of one connection.
use vlan_connect.Prelude.{ℕ, ◌≡◌, refl, ◌↔◌, ◌⊎◌, false, List, [], ◌∷◌, arith}
use vlan_connect.Prelude.Map.{find}
use vlan_connect.Protocol.Constants.{msg_login}
use vlan_connect.Session.{
  await_login, session_has_peer_identity, is_client_handshake_message, dispatch, close,
  classify_client_signal_message,
}
use vlan_connect.Session.Rules.{Awaited, classify-handshake}
use vlan_connect.Session.Index.{bind_unique_session_index, unbind_session_index, unbind-bind}

classify-handshake_example :
    ((classify_client_signal_message await_login msg_login ≡ dispatch)
      ↔ Awaited await_login msg_login)
    × ((is_client_handshake_message msg_login ≡ false)
        ⊎ Awaited await_login msg_login
        ⊎ (classify_client_signal_message await_login msg_login ≡ close))
unfolding session_has_peer_identity
classify-handshake_example = classify-handshake await_login msg_login refl

abbrev index : List (ℕ × ℕ)
index = (7, 70) ∷ (9, 90) ∷ []

unbind-bind_example :
    let index' = (bind_unique_session_index 8 80 index).1 in
    (unbind_session_index 8 90 index' ≡ index')
    × ((k : ℕ) → find k (unbind_session_index 8 80 index') ≡ find k index)
unfolding find
unbind-bind_example = unbind-bind 8 80 90 index (omega arith, (omega arith, tt)) refl (omega arith)
