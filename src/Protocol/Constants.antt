-- ===== src/Protocol/Constants.antt =====
-- The constants of common/protocol.h and the message types of `enum TcpMsgType`.
use vlan_connect.Prelude.{ℕ, ◌*◌}

abbrev pub vnet_subnet : ℕ
vnet_subnet = 0x0A0A0000

abbrev pub vnet_broadcast : ℕ
vnet_broadcast = 0x0A0A00FF

abbrev pub vnet_first_host_suffix : ℕ
vnet_first_host_suffix = 2

abbrev pub vnet_last_host_suffix : ℕ
vnet_last_host_suffix = 254

abbrev pub raw_udp_max_frag_payload : ℕ
raw_udp_max_frag_payload = 1457

abbrev pub fec_max_buffered_bytes : ℕ
fec_max_buffered_bytes = 256 * 1024

abbrev pub fec_max_active_groups : ℕ
fec_max_active_groups = 32

abbrev pub fec_group_size : ℕ
fec_group_size = 10

abbrev pub room_mtu_safe : ℕ
room_mtu_safe = 1280

abbrev pub room_mtu_balanced : ℕ
room_mtu_balanced = 1400

abbrev pub room_mtu_aggressive : ℕ
room_mtu_aggressive = 1420

abbrev pub room_mtu_default : ℕ
room_mtu_default = room_mtu_balanced

abbrev pub max_room_name_len : ℕ
max_room_name_len = 63

abbrev pub min_player_name_len : ℕ
min_player_name_len = 5

abbrev pub max_player_name_len : ℕ
max_player_name_len = 63

abbrev pub min_room_password_len : ℕ
min_room_password_len = 6

abbrev pub max_room_password_len : ℕ
max_room_password_len = 63

abbrev pub max_players : ℕ
max_players = 8

abbrev pub reconnect_token_size : ℕ
reconnect_token_size = 32

abbrev pub reconnect_lease_timeout_sec : ℕ
reconnect_lease_timeout_sec = 120

abbrev pub max_tcp_msg_payload : ℕ
max_tcp_msg_payload = 65000

abbrev pub room_list_page_payload : ℕ
room_list_page_payload = 60000

abbrev pub protocol_version : ℕ
protocol_version = 9

abbrev pub auth_salt_size : ℕ
auth_salt_size = 16

abbrev pub msg_login : ℕ
msg_login = 0x01

abbrev pub msg_login_resp : ℕ
msg_login_resp = 0x02

abbrev pub msg_create_room : ℕ
msg_create_room = 0x03

abbrev pub msg_join_room : ℕ
msg_join_room = 0x04

abbrev pub msg_room_info : ℕ
msg_room_info = 0x05

abbrev pub msg_peer_joined : ℕ
msg_peer_joined = 0x06

abbrev pub msg_peer_left : ℕ
msg_peer_left = 0x07

abbrev pub msg_leave_room : ℕ
msg_leave_room = 0x08

abbrev pub msg_room_created : ℕ
msg_room_created = 0x09

abbrev pub msg_join_resp : ℕ
msg_join_resp = 0x0a

abbrev pub msg_request_relay : ℕ
msg_request_relay = 0x0e

abbrev pub msg_relay_ready : ℕ
msg_relay_ready = 0x0f

abbrev pub msg_list_rooms : ℕ
msg_list_rooms = 0x10

abbrev pub msg_room_list : ℕ
msg_room_list = 0x11

abbrev pub msg_room_list_push : ℕ
msg_room_list_push = 0x12

abbrev pub msg_resume_room : ℕ
msg_resume_room = 0x13

abbrev pub msg_logout : ℕ
msg_logout = 0x14

abbrev pub msg_logout_ack : ℕ
msg_logout_ack = 0x15

abbrev pub msg_peer_resumed : ℕ
msg_peer_resumed = 0x16

abbrev pub msg_tcp_relay_data : ℕ
msg_tcp_relay_data = 0x20

abbrev pub msg_data_channel_init : ℕ
msg_data_channel_init = 0x21

abbrev pub msg_data_channel_ack : ℕ
msg_data_channel_ack = 0x22

abbrev pub msg_client_hello : ℕ
msg_client_hello = 0x30

abbrev pub msg_server_hello : ℕ
msg_server_hello = 0x31

abbrev pub msg_server_auth : ℕ
msg_server_auth = 0x32

abbrev pub msg_server_auth_ok : ℕ
msg_server_auth_ok = 0x33

abbrev pub msg_encrypted : ℕ
msg_encrypted = 0x34

abbrev pub msg_auth_challenge : ℕ
msg_auth_challenge = 0xe0

abbrev pub msg_auth_response : ℕ
msg_auth_response = 0xe1

abbrev pub msg_ping : ℕ
msg_ping = 0xf0

abbrev pub msg_pong : ℕ
msg_pong = 0xf1

abbrev pub msg_error : ℕ
msg_error = 0xf2
