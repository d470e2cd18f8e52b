-- ===== src/Tests/Entry.antt =====
-- The connection and the program's entry at concrete data.
use hxscanner.Prelude.{◌≡◌, refl, some, none, List, [], ◌∷◌}
use hxscanner.Strconv.{itoa, format_nat, format_digits}
use hxscanner.Env.{ok, err}
use hxscanner.Exec.{fatal, pure, fail, or_exit, ◌>>=◌}
use hxscanner.Main.{main, default_flags, system_config}
use hxscanner.Node.Connection.{Event, connects, closes, after, no_connection, after-client}
use hxscanner.Tests.Sample.{node, empty_world}

abbrev events : List Event
events = connects (ok 3) ∷ closes none ∷ connects (err "refused") ∷ connects (ok 4) ∷ []

after-client_example : (after events no_connection).client ≡ (after events no_connection).ws
after-client_example = after-client events refl

connection_string_example :
    (system_config default_flags).db_connection_string
    ≡ "user=postgres password= dbname=hxscanner sslmode=disable host=127.0.0.1 port=5432"
unfolding itoa format_nat format_digits
connection_string_example = refl

no_database : (main node (some "refused") default_flags 3 empty_world).0 ≡ fatal "refused"
unfolding main pure fail or_exit ◌>>=◌
no_database = refl
