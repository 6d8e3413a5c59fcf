-- ===== src/Parse/Packet.antt =====
-- The loop of `tpe_util_parse_packet`.
use galaxie.Prelude.{ℕ, ◌+◌, List, [], ◌∷◌, ◌++◌, none, some}
use galaxie.Run.{Run, ok, exited, ◌>>=◌}
use galaxie.Parse.{Cursor, at, past}
use galaxie.Parse.Fields.{Value, field}

-- What a call returns and stores, and where its pointer is at the end.
pub record Parsed : Type 0 where
  pub count : ℕ
  pub values : List Value
  pub pdata : Cursor

-- The guard that opens a round ends the program if the pointer is behind the end of the message.
-- An unknown letter ends the parse.
unfoldable pub parse_from : List ℕ → Cursor → Run Parsed
unfolding field
parse_from [] c = ok (record { count = 0; values = []; pdata = c })
parse_from (f ∷ format) past = exited
parse_from (f ∷ format) (at bytes) = elim (field f (at bytes)) [
  | none ↦ ok (record { count = 0; values = []; pdata = at bytes })
  | some run ↦ run >>= λ k. parse_from format k.pdata >>= λ r.
      ok (record { count = k.parsed + r.count; values = k.values ++ r.values; pdata = r.pdata })
]

-- The parse of a whole message.
unfoldable pub tpe_util_parse_packet : List ℕ → List ℕ → Run Parsed
unfolding parse_from
tpe_util_parse_packet bytes format = parse_from format (at bytes)
