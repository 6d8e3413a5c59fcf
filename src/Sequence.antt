-- ===== src/Sequence.antt =====
-- tpe_sequence.c: the lists of ids that the server numbers, and the requests for what has changed.
-- `C` is what a callback stands for; the sequences pass none.
pub mod Register
pub mod Update
pub mod Opening
mod Tests
use Prim.Native.String.{String}
use galaxie.Prelude.{
  ℕ, ◌+◌, ◌%◌, ◌^◌, Bool, true, false, ◌&&◌, ◌||◌, not, Option, none, some, List, [], ◌∷◌, ◌++◌,
  length, ltb, leb, ◌==◌, if◌then◌else◌, select, map,
}
use galaxie.Run.{Run, ok, undefined, ◌>>=◌}
use galaxie.Wire.{minus_one, uint64_max, be32, is_negative}
use galaxie.Server.{Server}
use galaxie.Server.Send.{Request, Reply, done, msg_not_supported, server_send}
use galaxie.Server.Format.{Arg, int, server_send_format}
use galaxie.Parse.Fields.{Value, ObjectSeqId, int as int_value, oids}
use galaxie.Parse.Packet.{tpe_util_parse_packet}

-- `struct sequence`, less the pointer to the program's state. Of the pointers `list_begin` and
-- `list_end` it is kept whether they are set.
pub record Sequence : Type 0 where
  pub updatemsg : String
  pub getmsg : String
  pub list_begin : Bool
  pub list_end : Bool
  pub position : ℕ
  pub delete : Bool

-- `more > 0` for an int.
abbrev pub is_positive : ℕ → Bool
is_positive v = ltb 0 v && not (is_negative v)

-- Whether the sum of two ints overflows.
abbrev pub overflows : ℕ → ℕ → Bool
overflows a b =
    if is_negative a
    then is_negative b && ltb (a + b) (2 ^ 32 + 2 ^ 31)
    else not (is_negative b) && leb (2 ^ 31) (a + b)

-- What `tpe_sequence_handle_oids` parses: the key, what is still to come, and the count and the
-- entries of the list.
pub record OidList : Type 0 where
  pub seqkey : ℕ
  pub more : ℕ
  pub noids : ℕ
  pub entries : List ObjectSeqId

-- The values that the format "iiO" stores.
unfoldable pub oid_list : List Value → Run OidList
oid_list (int_value seqkey ∷ int_value more ∷ oids noids entries ∷ []) =
    ok (record { seqkey = seqkey; more = more; noids = noids; entries = entries })
oid_list _ = undefined

-- The test of the loop: `updated` is what is known of the object.
unfoldable pub is_changed : (ℕ → ℕ) → ObjectSeqId → Bool
is_changed lastupdatefn o = ltb (lastupdatefn o.oid) o.updated || lastupdatefn o.oid == uint64_max

unfoldable pub id_words : List ObjectSeqId → List ℕ
id_words [] = []
id_words (o ∷ os) = be32 o.oid ++ id_words os

-- The array `toget`, behind its own length.
unfoldable pub toget : List ObjectSeqId → List ℕ
unfolding id_words
toget os = be32 (length os) ++ id_words os

-- What `tpe_sequence_handle_oids` leaves: the sequence, the server, and whether `list_end` was
-- called.
pub record Handled (C : Type 0) : Type 0 where
  pub sequence : Sequence
  pub server : Server C
  pub ended : Bool

abbrev pub opened : Sequence → Reply → Sequence
opened seq done = record seq { position = 0 }
opened seq msg_not_supported = record seq { position = 0; delete = true }

module _ {C : Type 0} (malloc : ℕ → List ℕ) where
  unfoldable pub send_toget : Server C → Sequence → List ObjectSeqId → Run (Server C)
  unfolding toget server_send
  send_toget server seq os =
      if ltb 0 (length os)
      then (server_send server (record { type = seq.getmsg; cb = none; body = toget os }) >>= λ out.
          ok out.0)
      else ok server

  unfoldable pub request_more : Server C → Sequence → OidList → Run (Handled C)
  unfolding server_send_format
  request_more server seq l =
      if is_positive l.more
      then (server_send_format malloc server seq.updatemsg none (b'i' ∷ b'i' ∷ b'i' ∷ [])
            (int l.seqkey ∷ int seq.position ∷ int minus_one ∷ [])
          >>= λ out. ok (record { sequence = seq; server = out.0; ended = false }))
      else ok (record { sequence = seq; server = server; ended = seq.list_end })

  unfoldable pub handle_list : (ℕ → ℕ) → Sequence → Server C → OidList → Run (Handled C)
  unfolding send_toget request_more is_changed
  handle_list lastupdatefn seq server l =
      let seq' : Sequence = record seq { position = (seq.position + l.noids) % 2 ^ 32 } in
      if overflows seq.position l.noids
      then undefined
      else (send_toget server seq' (select (is_changed lastupdatefn) l.entries) >>= λ server'.
          request_more server' seq' l)

  -- `lastupdatefn` is the function of that name over the program's state; what it notes there is
  -- not followed.
  unfoldable pub tpe_sequence_handle_oids : (ℕ → ℕ) → Sequence → Server C → List ℕ → Run (Handled C)
  unfolding tpe_util_parse_packet oid_list handle_list
  tpe_sequence_handle_oids lastupdatefn seq server body =
      tpe_util_parse_packet body (b'i' ∷ b'i' ∷ b'O' ∷ []) >>= λ parsed.
      oid_list parsed.values >>= λ l. handle_list lastupdatefn seq server l

  -- The requests that open a sequence. Under TP04 the format asks for a long and the call passes
  -- the int 0.
  unfoldable pub send_update : Server C → Sequence → Run (Server C × Reply)
  unfolding server_send_format
  send_update server seq =
      if server.protocol == 4
      then server_send_format malloc server seq.updatemsg none (b'i' ∷ b'0' ∷ b'i' ∷ b'l' ∷ [])
          (int minus_one ∷ int minus_one ∷ int 0 ∷ [])
      else server_send_format malloc server seq.updatemsg none (b'i' ∷ b'0' ∷ b'i' ∷ [])
          (int minus_one ∷ int minus_one ∷ [])

  -- The sequences after the loop, the server, and the update messages of those whose `list_begin`
  -- was called.
  unfoldable pub tpe_sequence_start :
      List Sequence → Server C → Run (List Sequence × Server C × List String)
  unfolding send_update
  tpe_sequence_start [] server = ok ([], server, [])
  tpe_sequence_start (seq ∷ seqs) server = send_update server seq >>= λ out.
      tpe_sequence_start seqs out.0 >>= λ r.
      ok (opened seq out.1 ∷ r.0, r.1, (if seq.list_begin then seq.updatemsg ∷ [] else []) ++ r.2)
