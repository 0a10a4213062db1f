-- ===== src/ClientMessage/Login.antt =====
-- MSG_LOGIN: the server accepts exactly the messages that the client builds.
use mathlib.Core.List.{append-nil}
use vlan_connect.Prelude.{
  ltb, ◌==◌, if◌then◌else◌, length, ◌>>=◌, return, ℕ, zero, suc, ◌^◌, ◌≤◌, ◌<◌, ◌≡◌, refl, sym, ap,
  ◌∙◌, Bool, true, false, not, Option, none, some, List, [], ◌∷◌, ◌++◌, arith,
}
use vlan_connect.Protocol.Constants.{reconnect_token_size, msg_login}
use vlan_connect.Protocol.Names.{is_valid_player_name}
use vlan_connect.ByteBuffer.{u8_bytes, u16_bytes, u32_bytes, string_bytes}
use vlan_connect.ByteBuffer.Parser.{Parse, p_u8, p_u16, p_u32, p_bytes, p_string, p_at_end}
use vlan_connect.ByteBuffer.Refine.{Refines, p_ended, reads}
use vlan_connect.ClientMessage.{verdict, validate_client_signal_payload}
use vlan_connect.ClientMessage.Verdict.{check-Refines, Accepts, bind_inv, else_inv, p_ended_inv}
use vlan_connect.ClientMessage.Readers.{has_nonzero_reconnect_token, known_lease, read_login}
use vlan_connect.ByteBuffer.RoundTrip.{
  IsBytes, p_u16_of, p_u32_of, p_bytes_all, p_string_of, p_u16_inv, p_u8_inv, p_u32_inv,
  p_bytes_inv, p_string_inv,
}

-- The room, the peer and the token of a lease to resume.
pub record Resume : Type 0 where
  pub room : ℕ
  pub peer : ℕ
  pub token : List ℕ

unfoldable pub resume_bytes : Option Resume → List ℕ
resume_bytes none = u8_bytes 0
resume_bytes (some r) = u8_bytes 1 ++ (u32_bytes r.room ++ (u32_bytes r.peer ++ r.token))

-- The body of CliSignalClient::login (client-cli/src/cli_net.cpp), with the version it is of.
unfoldable pub login_body : List ℕ → ℕ → Option Resume → List ℕ
login_body name version resume = string_bytes name ++ (u16_bytes version ++ resume_bytes resume)

pub record IsLease (room peer : ℕ) (token : List ℕ) : Type 0 where
  pub room_low : 1 ≤ room
  pub room_high : room < 2 ^ 32
  pub peer_low : 1 ≤ peer
  pub peer_high : peer < 2 ^ 32
  pub token_length : length token ≡ reconnect_token_size
  pub token_known : has_nonzero_reconnect_token token ≡ true

unfoldable pub IsResume : Option Resume → Type 0
IsResume none = Unit
IsResume (some r) = IsLease r.room r.peer r.token

unfoldable pub parse_lease_end : Parse Bool
parse_lease_end = do
  room ← p_u32
  peer ← p_u32
  token ← p_bytes reconnect_token_size
  if not (known_lease room peer token) then return false else p_ended

pub parse_login : Parse Bool
parse_login = do
  name ← p_string
  if not (is_valid_player_name name) then return false else do
    version ← p_u16
    has_resume ← p_u8
    if ltb 1 has_resume
        then return false
        else (if has_resume == 0 then p_ended else parse_lease_end)

read_login-Refines : Refines read_login parse_login
unfolding read_login parse_login parse_lease_end
read_login-Refines = search reads depth 20

validate_login :
    (xs : List ℕ) → validate_client_signal_payload msg_login xs ≡ verdict (parse_login xs)
unfolding validate_client_signal_payload parse_login p_string p_u16
validate_login [] = refl
validate_login (x ∷ xs) = ground (arith, check-Refines read_login-Refines (x ∷ xs))

name_short : (name : List ℕ) → is_valid_player_name name ≡ true → length name < 2 ^ 16
unfolding is_valid_player_name
name_short name h = ground arith

pub parse_lease_end_of :
    (room peer : ℕ) (token : List ℕ)
    → IsLease room peer token
    → verdict (parse_lease_end (u32_bytes room ++ (u32_bytes peer ++ token))) ≡ true
unfolding parse_lease_end p_ended p_at_end
parse_lease_end_of room peer token v =
    rw
      (
        parse_lease_end,
        ◌>>=◌,
        p_u32_of room _ v.room_high,
        p_u32_of peer _ v.peer_high,
        p_bytes_all token reconnect_token_size v.token_length,
      )
      (ground (arith, v.room_low, v.peer_low, v.token_known))

-- Every login that the client can build is accepted: a valid name, any version and, if it resumes,
-- a lease with a room, a peer and a token that are not zero.
pub validate-login_body :
    (name : List ℕ) (version : ℕ) (resume : Option Resume)
    → is_valid_player_name name ≡ true
    → version < 2 ^ 16
    → IsResume resume
    → validate_client_signal_payload msg_login (login_body name version resume) ≡ true
unfolding login_body parse_login resume_bytes IsResume p_u8 p_ended p_at_end
validate-login_body name version none good small v =
    validate_login (login_body name version none)
    ∙ rw
        (
          parse_login,
          ◌>>=◌,
          p_string_of name _ (name_short name good),
          good,
          p_u16_of version _ small,
          p_u8,
        )
        refl
validate-login_body name version (some r) good small v =
    validate_login (login_body name version (some r))
    ∙ rw
        (
          parse_login,
          ◌>>=◌,
          p_string_of name _ (name_short name good),
          good,
          p_u16_of version _ small,
          p_u8,
        )
        (parse_lease_end_of r.room r.peer r.token v)

pub parse_lease_end_inv :
    (xs : List ℕ)
    → IsBytes xs
    → Accepts parse_lease_end xs
    → (r : Resume) × IsLease r.room r.peer r.token
      × (xs ≡ u32_bytes r.room ++ (u32_bytes r.peer ++ r.token))
unfolding parse_lease_end
parse_lease_end_inv xs h e =
    let (room, xs1, read1, e1) = bind_inv p_u32 _ e in
    let (split1, room_high, h1) = p_u32_inv xs room xs1 h read1 in
    let (peer, xs2, read2, e2) = bind_inv p_u32 _ e1 in
    let (split2, peer_high, h2) = p_u32_inv xs1 peer xs2 h1 read2 in
    let (token, xs3, read3, e3) = bind_inv (p_bytes reconnect_token_size) _ e2 in
    let (split3, len, h3) = p_bytes_inv xs2 reconnect_token_size token xs3 h2 read3 in
    let (known, e4) = else_inv (not (known_lease room peer token)) e3 in
    let done = p_ended_inv xs3 e4 in
    (
      record { room = room; peer = peer; token = token },
      record {
        room_low = ground arith;
        room_high = room_high;
        peer_low = ground arith;
        peer_high = peer_high;
        token_length = len;
        token_known = ground arith;
      },
      cc (split1, split2, split3, done, append-nil token),
    )

flag_inv :
    (flag : ℕ) (xs : List ℕ)
    → IsBytes xs
    → ltb 1 flag ≡ false
    → Accepts (if flag == 0 then p_ended else parse_lease_end) xs
    → (resume : Option Resume) × IsResume resume × (u8_bytes flag ++ xs ≡ resume_bytes resume)
unfolding resume_bytes IsResume
flag_inv zero xs h low e = (none, tt, ap (◌∷◌ 0) (p_ended_inv xs e))
flag_inv (suc zero) xs h low e =
    let (r, lease, split) = parse_lease_end_inv xs h e in (some r, lease, ap (◌∷◌ 1) split)
flag_inv (suc (suc n)) xs h low e = absurd (ground arith)

-- The server accepts no other login: bytes that it accepts are the body that the client builds for some
-- valid name, some version and possibly a lease whose room, peer and token are not zero.
pub validate-login_body_inv :
    (xs : List ℕ)
    → IsBytes xs
    → validate_client_signal_payload msg_login xs ≡ true
    → (name : List ℕ) × (version : ℕ) × (resume : Option Resume) × (is_valid_player_name name
        ≡ true)
      × IsResume resume
      × (xs ≡ login_body name version resume)
unfolding login_body parse_login resume_bytes IsResume
validate-login_body_inv xs h ok =
    let e : Accepts parse_login xs = record { run = sym (validate_login xs) ∙ ok } in
    let (name, xs1, read1, e1) = bind_inv p_string _ e in
    let (split1, short, h1) = p_string_inv xs name xs1 h read1 in
    let (good, e2) = else_inv (not (is_valid_player_name name)) e1 in
    let (version, xs2, read2, e3) = bind_inv p_u16 _ e2 in
    let (split2, small, h2) = p_u16_inv xs1 version xs2 h1 read2 in
    let (flag, xs3, read3, e4) = bind_inv p_u8 _ e3 in
    let (split3, byte, h3) = p_u8_inv xs2 flag xs3 h2 read3 in
    let (flag_low, e5) = else_inv (ltb 1 flag) e4 in
    let (resume, lease, split) = flag_inv flag xs3 h3 flag_low e5 in
    (
      name,
      version,
      resume,
      ground arith,
      lease,
      split1
          ∙ ap (λ t. string_bytes name ++ t)
              (split2 ∙ ap (λ t. u16_bytes version ++ t) (split3 ∙ split)),
    )
