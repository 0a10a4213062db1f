-- ===== src/ByteBuffer/Tests.antt =====
-- A message of one value of every kind.
use vlan_connect.Prelude.{codes, ◌≡◌, some, [], ◌∷◌, arith}
use vlan_connect.ByteBuffer.Refine.{view}
use vlan_connect.ByteBuffer.RoundTrip.{write_all, read_all, read_all-write_all}

read_all-write_all_example :
    view (read_all 3 (write_all 7 1400 70000 5 (codes "alice") (1 ∷ 2 ∷ 3 ∷ [])))
    ≡ some ((7, 1400, 70000, 5, codes "alice", 1 ∷ 2 ∷ 3 ∷ []), [])
read_all-write_all_example =
    read_all-write_all 7 1400 70000 5 (codes "alice") (1 ∷ 2 ∷ 3 ∷ []) (omega arith) (omega arith)
      (omega arith) (omega arith)
