-- ===== src/Sequence/Tests.antt =====
-- The theorems on the sequences at the sequence of objects.c.
use galaxie.Prelude.{
  ℕ, ◌≡◌, refl, true, false, none, List, [], ◌∷◌, arith, replicate, length-replicate, if◌then◌else◌,
  ◌==◌,
}
use galaxie.Run.{ok, ◌>>=◌}
use galaxie.Server.{Server}
use galaxie.Server.Send.{connected}
use galaxie.Parse.Fields.{ObjectSeqId}
use galaxie.Sequence.{Sequence, tpe_sequence_handle_oids}
use galaxie.Wire.{be32}
use galaxie.Sequence.Update.{list_bytes, asked, moved, handle_oids-list_bytes}
use galaxie.Server.Send.Batch.{send_all}

abbrev objects : Sequence
objects = record {
  updatemsg = "MsgGetObjectIDs";
  getmsg = "MsgGetObjectsByID";
  list_begin = true;
  list_end = true;
  position = 4;
  delete = false;
}

abbrev server : Server Unit
server = connected

abbrev block : ℕ → List ℕ
block n = replicate n 0xcc

-- Object 1 is known as of time 50, and of the others nothing is known.
abbrev lastupdate : ℕ → ℕ
lastupdate oid = if oid == 1 then 50 else 0

abbrev ids : List ObjectSeqId
ids = record { oid = 1; updated = 50 } ∷ record { oid = 2; updated = 60 } ∷ []

toget_run :
    asked {C = Unit} lastupdate objects 9 0 ids
    ≡ record { type = "MsgGetObjectsByID"; cb = none; body = 0 ∷ 0 ∷ 0 ∷ 1 ∷ 0 ∷ 0 ∷ 0 ∷ 2 ∷ [] }
      ∷ []
unfolding be32
toget_run = refl

handle_oids-list_bytes_example :
    tpe_sequence_handle_oids block lastupdate objects server (list_bytes 9 0 ids) ≡ (
      send_all server (asked lastupdate objects 9 0 ids) >>= λ server'.
      ok (record { sequence = moved objects 2; server = server'; ended = true }))
handle_oids-list_bytes_example =
    handle_oids-list_bytes block (λ n. length-replicate n 0xcc) lastupdate objects server 9 0 ids
      (omega arith) (omega arith) (omega arith) (omega arith)
      ((omega arith, omega arith), ((omega arith, omega arith), tt))
