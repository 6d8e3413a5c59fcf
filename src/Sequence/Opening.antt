-- ===== src/Sequence/Opening.antt =====
-- The requests that open the sequences.
use galaxie.Prelude.{
  ℕ, ◌≡◌, ◌≢◌, ◌==◌, refl, sym, ◌∙◌, arith, none, some, Bool-cases, Option-cases, inl, inr, List,
  [], ◌∷◌, ◌++◌, length, map, select, leb,
}
use galaxie.Run.{Run, ok, undefined, ◌>>=◌, >>=_assoc, >>=_cong}
use galaxie.Wire.{be32, minus_one}
use galaxie.Server.{Server}
use galaxie.Server.Send.{Request, Reply, done, msg_not_supported, server_sent, server_send}
use galaxie.Server.Names.{type_of}
use galaxie.Server.Format.{int, server_send_format}
use galaxie.Server.Format.Passes.{wire, server_send_format_lem}
use galaxie.Sequence.{Sequence, opened, send_update, tpe_sequence_start}

-- Under TP04 the start of any sequence is undefined: the format "i0il" reads a 64-bit argument
-- where the call passes the int 0.
tpe_sequence_start_tp04 :
    {C : Type 0} (malloc : ℕ → List ℕ) (seq : Sequence) (seqs : List Sequence) (server : Server C)
    → server.protocol ≡ 4
    → tpe_sequence_start malloc (seq ∷ seqs) server ≡ undefined
unfolding tpe_sequence_start send_update server_send_format
tpe_sequence_start_tp04 malloc seq seqs server h = ground arith

-- The request for the list of a sequence: from the beginning, all of it.
abbrev update_request : {C : Type 0} → Sequence → Request C
update_request seq = record {
  type = seq.updatemsg;
  cb = none;
  body = be32 minus_one ++ (be32 0 ++ be32 minus_one);
}

abbrev send_replies : {C : Type 0} → Server C → List (Request C) → Run (Server C × List Reply)
send_replies server [] = ok (server, [])
send_replies server (r ∷ rs) =
    server_send server r >>= λ out. send_replies out.0 rs >>= λ r. ok (r.0, out.1 ∷ r.1)

abbrev opened_all : List Sequence → List Reply → List Sequence
opened_all (seq ∷ seqs) (reply ∷ replies) = opened seq reply ∷ opened_all seqs replies
opened_all _ _ = []

server_send_protocol :
    {C : Type 0} (server : Server C) (r : Request C) {out : Server C × Reply}
    → server_send server r ≡ ok out
    → out.0.protocol ≡ server.protocol
unfolding server_send server_sent
server_send_protocol server r {out} h = elim (Bool-cases (leb 100000 (length r.body))) [
  | inl t ↦ cc
  | inr t ↦ elim (Option-cases (type_of server.protocol r.type)) [
    | inl e ↦ cc
    | inr (none, e) ↦ let p : ok (server, msg_not_supported) ≡ ok out = cc in ground arith
    | inr (some x, e) ↦ let p : ok (server_sent server x r, done) ≡ ok out = cc in ground arith
  ]
]

send_update_tp03 :
    {C : Type 0} (malloc : ℕ → List ℕ)
    → ((n : ℕ) → length (malloc n) ≡ n)
    → (server : Server C) (seq : Sequence) → server.protocol ≢ 4
    → send_update malloc server seq ≡ server_send server (update_request seq)
unfolding send_update wire be32
send_update_tp03 malloc sized server seq h = elim (Bool-cases (server.protocol == 4)) [
  | inl t ↦ absurd (ground arith)
  | inr t ↦
      rw
        (
          t,
          server_send_format_lem malloc sized server seq.updatemsg none (b'i' ∷ b'0' ∷ b'i' ∷ [])
              (int minus_one ∷ int minus_one ∷ []) tt,
        )
        refl
]

-- Under the other protocol each sequence asks for its list from the beginning, in the order of
-- their registration. A sequence whose message the server does not know is marked for deletion,
-- every position is set to 0, and `list_begin` of every sequence that has one is called. That
-- `malloc` gives blocks of the size asked for is assumed.
tpe_sequence_start_tp03 :
    {C : Type 0} (malloc : ℕ → List ℕ)
    → ((n : ℕ) → length (malloc n) ≡ n)
    → (seqs : List Sequence) (server : Server C) → server.protocol ≢ 4
    → tpe_sequence_start malloc seqs server ≡ (
        send_replies server (map update_request seqs) >>= λ out. ok (
          opened_all seqs out.1,
          out.0,
          map (λ seq. seq.updatemsg) (select (λ seq. seq.list_begin) seqs),
        ))
unfolding tpe_sequence_start
tpe_sequence_start_tp03 malloc sized [] server h = refl
tpe_sequence_start_tp03 malloc sized (seq ∷ seqs) server h =
    rw (send_update_tp03 malloc sized server seq h) (
      >>=_cong (server_send server (update_request seq)) (λ out e.
        rw
          (
            tpe_sequence_start_tp03 malloc sized seqs out.0
                (λ p. h (sym (server_send_protocol server (update_request seq) e) ∙ p)),
            >>=_assoc (send_replies out.0 (map update_request seqs)) _ _,
            >>=_assoc (send_replies out.0 (map update_request seqs)) _ _,
          )
          (>>=_cong (send_replies out.0 (map update_request seqs)) (λ o g. ground arith)))
      ∙ sym (>>=_assoc (server_send server (update_request seq)) _ _))
