-- ===== src/Viewer/Tests.antt =====
-- The connection strings and keys of the tests of src/bin/g2mirror-view.rs.
use g2mirror.Prelude.{◌≡◌, refl, [], ◌∷◌, ◌++◌, ascii}
use g2mirror.Prelude.Results.{err}
use g2mirror.Viewer.{
  bad_scheme, no_at_sign, empty_token, parse_connection_string, up, down, enter, refresh, quit,
  parse_list_keys,
}
use g2mirror.Viewer.Dialed.{Dials, parse_connection_string-Dials}

other_scheme : parse_connection_string (ascii "ws://tok@host") ≡ err bad_scheme
unfolding parse_connection_string
other_scheme = refl

host_only : parse_connection_string (ascii "g2mirror://hostonly") ≡ err no_at_sign
unfolding parse_connection_string
host_only = refl

without_token : parse_connection_string (ascii "g2mirror://@host") ≡ err empty_token
unfolding parse_connection_string
without_token = refl

keys :
    parse_list_keys (0x1b ∷ ascii "[A" ++ 0x1b ∷ ascii "[Bjkr\rq" ++ 0x03 ∷ [])
    ≡ up ∷ down ∷ down ∷ up ∷ refresh ∷ enter ∷ quit ∷ quit ∷ []
unfolding parse_list_keys
keys = refl

parse_connection_string-Dials_example :
    Dials (ascii "a@b") (ascii "example.com") (ascii "example.com:8737") (ascii "example.com:443")
    × Dials
        (ascii "a@b")
        (ascii "example.com:9000")
        (ascii "example.com:9000")
        (ascii "example.com:9000")
    × Dials (ascii "a@b") (ascii "[::1]") (ascii "[::1]:8737") (ascii "[::1]:443")
    × Dials (ascii "a@b") (ascii "[::1]:9000") (ascii "[::1]:9000") (ascii "[::1]:9000")
parse_connection_string-Dials_example =
    parse_connection_string-Dials (ascii "a@b") (ascii "example.com") (ascii "::1") (ascii "9000")
      refl refl refl refl refl refl refl refl
