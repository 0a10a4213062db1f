-- ===== src/TcpFrame/Tests.antt =====
-- A frame of three bytes, with the first byte of the next one.
use vlan_connect.Prelude.{ℕ, List, [], ◌∷◌}

abbrev body : List ℕ
body = 1 ∷ 2 ∷ 3 ∷ []
