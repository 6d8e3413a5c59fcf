-- ===== src/Sequence/Update.antt =====
-- The requests that follow a list of ids.
use galaxie.Prelude.{
  ℕ, ◌+◌, ◌%◌, ◌^◌, ◌<◌, ◌≡◌, refl, ◌∙◌, ◌&&◌, not, ap, leb, suc, true, false, ◌==◌, ◌-◌, none,
  List, [], ◌∷◌, ◌++◌, arith, length, ltb, if◌then◌else◌, select, All, Bool-cases, inl, inr, sym,
}
use galaxie.Run.{ok, ◌>>=◌, >>=_assoc, >>=_cong}
use galaxie.Wire.{minus_one, IsU32, IsU64, be32, be64}
use galaxie.Server.{Server}
use galaxie.Server.Send.{Request, server_send}
use galaxie.Server.Send.Batch.{send_all, send_all-append}
use galaxie.Server.Format.{int}
use galaxie.Server.Format.Passes.{wire, server_send_format_lem}
use galaxie.Parse.{at, read_many}
use galaxie.Parse.Fields.{ObjectSeqId, oids, read_oid, rounds}
use galaxie.Parse.Fields.{int as int_value}
use galaxie.Parse.Packet.{tpe_util_parse_packet}
use galaxie.Parse.RoundTrip.Strings.{read_int-be32, read_long-be64}
use galaxie.Sequence.{
  Sequence, is_positive, OidList, oid_list, is_changed, id_words, overflows, toget, send_toget,
  request_more, handle_list, tpe_sequence_handle_oids,
}

-- The list of ids as the server sends it.
abbrev entry_bytes : List ObjectSeqId → List ℕ
entry_bytes [] = []
entry_bytes (o ∷ os) = be32 o.oid ++ (be64 o.updated ++ entry_bytes os)

abbrev pub list_bytes : ℕ → ℕ → List ObjectSeqId → List ℕ
list_bytes seqkey more os = be32 seqkey ++ (be32 more ++ (be32 (length os) ++ entry_bytes os))

abbrev IsEntry : ObjectSeqId → Type 0
IsEntry o = IsU32 o.oid × IsU64 o.updated

read_oid-entry :
    (o : ObjectSeqId) (rest : List ℕ)
    → IsEntry o
    → read_oid (at (be32 o.oid ++ (be64 o.updated ++ rest))) ≡ ok (o, at rest)
unfolding read_oid
read_oid-entry o rest h =
    rw (read_int-be32 o.oid (be64 o.updated ++ rest) h.0, read_long-be64 o.updated rest h.1)

read_many-entries :
    (os : List ObjectSeqId)
    → All IsEntry os
    → read_many read_oid (length os) (at (entry_bytes os)) ≡ ok (os, at [])
unfolding read_many
read_many-entries [] h = refl
read_many-entries (o ∷ os) h = rw (read_oid-entry o (entry_bytes os) h.0, read_many-entries os h.1)

rounds_lem : (n : ℕ) → n < 2 ^ 31 → rounds n ≡ n
rounds_lem n h = ground arith

parse-list_bytes :
    (seqkey more : ℕ) (os : List ObjectSeqId)
    → IsU32 seqkey
    → IsU32 more
    → length os < 2 ^ 31
    → All IsEntry os
    → tpe_util_parse_packet (list_bytes seqkey more os) (b'i' ∷ b'i' ∷ b'O' ∷ [])
      ≡ ok (record {
        count = 3;
        values = int_value seqkey ∷ int_value more ∷ oids (length os) os ∷ [];
        pdata = at [];
      })
unfolding tpe_util_parse_packet
parse-list_bytes seqkey more os hk hm hl h =
    rw
      (
        read_int-be32 seqkey (be32 more ++ (be32 (length os) ++ entry_bytes os)) hk,
        read_int-be32 more (be32 (length os) ++ entry_bytes os) hm,
        read_int-be32 (length os) (entry_bytes os) (omega arith),
      )
      (rw (rounds_lem (length os) hl, read_many-entries os h))

-- The ids on the list of the objects that have changed since the time known of them, or of which
-- the time known is 2 ^ 64 - 1.
abbrev changed_ids : (ℕ → ℕ) → List ObjectSeqId → List ℕ
changed_ids lastupdatefn [] = []
changed_ids lastupdatefn (o ∷ os) =
    if leb o.updated (lastupdatefn o.oid) && not (lastupdatefn o.oid == 2 ^ 64 - 1)
    then changed_ids lastupdatefn os
    else o.oid ∷ changed_ids lastupdatefn os

abbrev pub words : List ℕ → List ℕ
words [] = []
words (n ∷ ns) = be32 n ++ words ns

abbrev get_request : {C : Type 0} → Sequence → List ℕ → List (Request C)
get_request seq [] = []
get_request seq (id ∷ ids) =
    record { type = seq.getmsg; cb = none; body = be32 (length (id ∷ ids)) ++ words (id ∷ ids) }
    ∷ []

-- The ids of the entries that the loop keeps are those.
changed_ids_lem :
    (lastupdatefn : ℕ → ℕ) (os : List ObjectSeqId)
    → (length (select (is_changed lastupdatefn) os) ≡ length (changed_ids lastupdatefn os))
      × (id_words (select (is_changed lastupdatefn) os) ≡ words (changed_ids lastupdatefn os))
unfolding is_changed id_words
changed_ids_lem lastupdatefn [] = (refl, refl)
changed_ids_lem lastupdatefn (o ∷ os) =
    let rest = changed_ids_lem lastupdatefn os in
    elim (Bool-cases (is_changed lastupdatefn o)) [
      | inl t ↦
          let u : (leb o.updated (lastupdatefn o.oid) && not (lastupdatefn o.oid == 2 ^ 64 - 1))
              ≡ false =
            ground (arith, t) in
          rw (t, u) (ap suc rest.0, ap (λ ws. be32 o.oid ++ ws) rest.1)
      | inr t ↦
          let u : (leb o.updated (lastupdatefn o.oid) && not (lastupdatefn o.oid == 2 ^ 64 - 1))
              ≡ true =
            ground (arith, t) in
          rw (t, u) rest
    ]

abbrev more_request : {C : Type 0} → Sequence → ℕ → ℕ → List (Request C)
more_request seq seqkey more =
    if is_positive more
    then record {
      type = seq.updatemsg;
      cb = none;
      body = be32 seqkey ++ (be32 seq.position ++ be32 minus_one);
    }
      ∷ []
    else []

-- The sequence after a list of that length.
abbrev pub moved : Sequence → ℕ → Sequence
moved seq noids = record seq { position = seq.position + noids }

-- The requests that the list asks for: the objects that have changed, in the list's order, and the
-- next part of the list from where this one ends.
abbrev pub asked : {C : Type 0} → (ℕ → ℕ) → Sequence → ℕ → ℕ → List ObjectSeqId → List (Request C)
asked lastupdatefn seq seqkey more os =
    get_request seq (changed_ids lastupdatefn os)
    ++ more_request (moved seq (length os)) seqkey more

send_toget_lem :
    {C : Type 0} (malloc : ℕ → List ℕ) (server : Server C) (seq : Sequence)
    (changed : List ObjectSeqId) (ids : List ℕ)
    → length changed ≡ length ids
    → id_words changed ≡ words ids
    → send_toget malloc server seq changed ≡ send_all server (get_request seq ids)
unfolding send_toget toget
send_toget_lem malloc server seq changed [] l w =
    let nothing : ltb 0 (length changed) ≡ false = ground (arith, l) in rw nothing refl
send_toget_lem malloc server seq changed (id ∷ ids) l w =
    let something : ltb 0 (length changed) ≡ true = ground (arith, l) in
    let body : toget changed ≡ be32 (length (id ∷ ids)) ++ words (id ∷ ids) =
      ap (λ n. be32 n ++ id_words changed) l ∙ ap (λ ws. be32 (length (id ∷ ids)) ++ ws) w in
    rw something (
      ap
        (λ b. server_send server (record { type = seq.getmsg; cb = none; body = b }) >>= λ out.
          ok out.0)
        body)

request_more_lem :
    {C : Type 0} (malloc : ℕ → List ℕ)
    → ((n : ℕ) → length (malloc n) ≡ n)
    → (server : Server C) (seq : Sequence) (l : OidList)
    → request_more malloc server seq l ≡ (
        send_all server (more_request seq l.seqkey l.more) >>= λ server'. ok (record {
          sequence = seq;
          server = server';
          ended = not (is_positive l.more) && seq.list_end;
        }))
unfolding request_more wire be32
request_more_lem malloc sized server seq l = elim (Bool-cases (is_positive l.more)) [
  | inl t ↦
      rw
        (
          t,
          server_send_format_lem malloc sized server seq.updatemsg none (b'i' ∷ b'i' ∷ b'i' ∷ [])
              (int l.seqkey ∷ int seq.position ∷ int minus_one ∷ []) tt,
        )
        (rw (>>=_assoc (server_send server _) (λ out. ok out.0) _) refl)
  | inr t ↦ rw t refl
]

-- A list of fewer than 2 ^ 31 ids as the server sends it, whose numbers fit their words, and a
-- position that with the list's length is below 2 ^ 31: `tpe_sequence_handle_oids` sends one request
-- with the number and the ids of the objects on the list that have changed, if there are any, and
-- one for the next part of the list from where this one ends, if more is to come, and nothing else;
-- it moves the position by the list's length, and calls `list_end`, where there is one, when nothing
-- is still to come. That `malloc` gives blocks of the size asked for is assumed.
pub handle_oids-list_bytes :
    {C : Type 0} (malloc : ℕ → List ℕ)
    → ((n : ℕ) → length (malloc n) ≡ n)
    → (lastupdatefn : ℕ → ℕ) (seq : Sequence) (server : Server C) (seqkey more : ℕ)
      (os : List ObjectSeqId)
    → IsU32 seqkey
    → IsU32 more
    → length os < 2 ^ 31
    → seq.position + length os < 2 ^ 31
    → All IsEntry os
    → tpe_sequence_handle_oids malloc lastupdatefn seq server (list_bytes seqkey more os) ≡ (
        send_all server (asked lastupdatefn seq seqkey more os) >>= λ server'. ok (record {
          sequence = moved seq (length os);
          server = server';
          ended = not (is_positive more) && seq.list_end;
        }))
unfolding tpe_sequence_handle_oids oid_list handle_list
handle_oids-list_bytes malloc sized lastupdatefn seq server seqkey more os hk hm hl hp h =
    let changed = select (is_changed lastupdatefn) os in
    let ids = changed_ids lastupdatefn os in
    let l : OidList = record { seqkey = seqkey; more = more; noids = length os; entries = os } in
    let fits : overflows seq.position (length os) ≡ false = ground arith in
    let sum : (seq.position + length os) % 2 ^ 32 ≡ seq.position + length os = omega arith in
    let same = changed_ids_lem lastupdatefn os in
    rw
      (
        parse-list_bytes seqkey more os hk hm hl h,
        fits,
        sum,
        send_toget_lem malloc server (moved seq (length os)) changed ids same.0 same.1,
        send_all-append server (get_request seq ids)
            (more_request (moved seq (length os)) seqkey more),
      )
      (>>=_cong (send_all server (get_request seq ids))
          (λ server' e. request_more_lem malloc sized server' (moved seq (length os)) l)
        ∙ sym (>>=_assoc (send_all server (get_request seq ids)) _ _))
