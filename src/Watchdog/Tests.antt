-- ===== src/Watchdog/Tests.antt =====
-- An outage that is observed three times.
use vlan_connect.Prelude.{ℕ, List, [], ◌∷◌}

abbrev times : List ℕ
times = 1000 ∷ 12000 ∷ 13000 ∷ []
