-- ===== src/Parse/Tests.antt =====
-- Runs of the parser, and its theorem at a message of three fields.
use galaxie.Prelude.{◌≡◌, refl, List, [], ◌∷◌, ◌++◌, arith, map}
use galaxie.Run.{ok, ◌>>=◌}
use galaxie.Parse.{at, read_int}
use galaxie.Parse.Fields.{field, int as int_value, long as long_value, str as str_value}
use galaxie.Parse.Packet.{tpe_util_parse_packet}
use galaxie.Parse.RoundTrip.{Item, int, long, str, letter, arg, parse-wire}
use galaxie.Server.Format.Passes.{wire}

-- A letter that the parser does not know ends it; what it has read so far stands.
unknown_run :
    tpe_util_parse_packet (0 ∷ 0 ∷ 0 ∷ 5 ∷ []) (b'i' ∷ b'?' ∷ b'i' ∷ [])
    ≡ ok (record { count = 1; values = int_value 5 ∷ []; pdata = at [] })
unfolding tpe_util_parse_packet field read_int
unknown_run = refl

abbrev items : List Item
items = int 5 ∷ str (b'h' ∷ b'i' ∷ []) ∷ long 0x100000002 ∷ []

parse-wire_example :
    (wire (map letter items) (map arg items) >>= λ bytes.
    tpe_util_parse_packet (bytes ++ (9 ∷ [])) (map letter items))
    ≡ ok (record {
      count = 3;
      values = int_value 5 ∷ str_value (b'h' ∷ b'i' ∷ []) ∷ long_value 0x100000002 ∷ [];
      pdata = at (9 ∷ []);
    })
parse-wire_example = parse-wire items (9 ∷ []) (
  omega arith,
  (
    (((λ x. absurd (omega arith)), ((λ x. absurd (omega arith)), tt)), omega arith),
    (omega arith, tt),
  ),
)
