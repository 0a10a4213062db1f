-- ===== src/AuthFile/Tests.antt =====
-- A file with a password and a line end.
use vlan_connect.Prelude.{codes, ℕ, ◌≡◌, ◌↔◌, true, List, [], ◌∷◌, ◌++◌}
use vlan_connect.AuthFile.{
  password, all_line_ends, parse_auth_password_bytes, IsPassword, parse_auth_password_bytes_iff,
}

abbrev secret : List ℕ
secret = codes "a secret"

parse_auth_password_bytes_iff_example :
    (parse_auth_password_bytes (secret ++ 10 ∷ []) ≡ password secret) ↔ (
      IsPassword secret
      × ((ends : List ℕ) × (secret ++ 10 ∷ [] ≡ secret ++ ends) × (all_line_ends ends ≡ true)))
parse_auth_password_bytes_iff_example = parse_auth_password_bytes_iff (secret ++ 10 ∷ []) secret
