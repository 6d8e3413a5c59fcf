-- ===== src/Server/Tests.antt =====
-- Runs of the parts of server.c, and their theorems at concrete packets.
use galaxie.Prelude.{
  false, Option, ℕ, ◌+◌, ◌≡◌, ◌≢◌, refl, inr, none, some, List, [], ◌∷◌, ◌++◌, arith, replicate,
  length-replicate,
}
use galaxie.Run.{Run, ok, stuck, ◌>>=◌}
use galaxie.Server.{Packet, Server}
use galaxie.Server.{Msg, ServerCb}
use galaxie.Server.Dispatch.{sends, answered}
use galaxie.Server.Dispatch.One.{answered_one}
use galaxie.Server.Dispatch.Quiet.{answered-effects}
use galaxie.Server.Names.{type_of}
use galaxie.Server.Frames.{Receiver, receive, header_proto_4, handle_asserted, is_refused, next}
use galaxie.Wire.{be32, word, of_be32}
use galaxie.Server.Frames.Chunks.{receive-append, receive-ne-stuck}
use galaxie.Server.Send.{
  Request, connected, packet_bytes, next_seq, server_cb_add, server_sent, server_send,
}
use galaxie.Server.Send.RoundTrip.{packet_of, receive-server_sent}
use galaxie.Server.Format.{int, str, raw, server_send_format, chunk, str_chunk, padded, strncpy}
use galaxie.Server.Format.Passes.{wire, server_send_format_lem}

-- A handler that keeps the sequence numbers of what it is given.
abbrev note : List ℕ → Packet → Run (List ℕ)
note seqs p = ok (seqs ++ (p.seq ∷ []))

abbrev idle : Server Unit
idle = connected

abbrev empty : Receiver (List ℕ)
empty = record { server = []; buf = [] }

abbrev ping : Request Unit
ping = record { type = "MsgPING"; cb = none; body = 1 ∷ 2 ∷ 3 ∷ [] }

abbrev ping_bytes : List ℕ
ping_bytes = 0x54 ∷ 0x50 ∷ 4 ∷ 0 ∷ 0 ∷ 0 ∷ 0 ∷ 2 ∷ 0 ∷ 0 ∷ 0 ∷ 27 ∷ 0 ∷ 0 ∷ 0 ∷ 3 ∷ 1 ∷ 2 ∷ 3 ∷ []

packet_bytes_run : packet_bytes header_proto_4 2 27 (1 ∷ 2 ∷ 3 ∷ []) ≡ ping_bytes
unfolding packet_bytes be32
packet_bytes_run = refl

receive_run :
    receive note empty (ping_bytes ++ ping_bytes) ≡ ok (record { server = 2 ∷ 2 ∷ []; buf = [] })
unfolding receive handle_asserted is_refused next word of_be32
receive_run = refl

receive-append_example :
    receive note empty (ping_bytes ++ ping_bytes)
    ≡ (receive note empty ping_bytes >>= λ r. receive note r ping_bytes)
receive-append_example = receive-append note empty ping_bytes ping_bytes

receive-ne-stuck_example : receive note empty ping_bytes ≢ stuck
receive-ne-stuck_example = receive-ne-stuck note (λ s p x. cc) empty ping_bytes

receive-server_sent_example :
    receive note
      (record { server = []; buf = [] })
      (packet_bytes header_proto_4 (next_seq idle) 27 (1 ∷ 2 ∷ 3 ∷ []) ++ ping_bytes)
    ≡ (note [] (packet_of idle 27 ping) >>= λ seqs.
        receive note (record { server = seqs; buf = [] }) ping_bytes)
receive-server_sent_example =
    receive-server_sent note [] idle 27 ping ping_bytes (inr (refl, refl)) (omega arith)
      (omega arith) (omega arith) (omega arith)

abbrev block : ℕ → List ℕ
block n = replicate n 0xcc

server_send_format_lem_example :
    server_send_format block idle "MsgGetObjectsByID" none
      (b'i' ∷ b's' ∷ b'r' ∷ [])
      (int 7 ∷ str (some (b'h' ∷ b'i' ∷ [])) ∷ raw 1 (9 ∷ 9 ∷ 9 ∷ 9 ∷ []) ∷ [])
    ≡ (wire
          (b'i' ∷ b's' ∷ b'r' ∷ [])
          (int 7 ∷ str (some (b'h' ∷ b'i' ∷ [])) ∷ raw 1 (9 ∷ 9 ∷ 9 ∷ 9 ∷ []) ∷ [])
        >>= λ bytes.
            server_send idle (record { type = "MsgGetObjectsByID"; cb = none; body = bytes }))
server_send_format_lem_example =
    server_send_format_lem block (λ n. length-replicate n 0xcc) idle "MsgGetObjectsByID" none
      (b'i' ∷ b's' ∷ b'r' ∷ [])
      (int 7 ∷ str (some (b'h' ∷ b'i' ∷ [])) ∷ raw 1 (9 ∷ 9 ∷ 9 ∷ 9 ∷ []) ∷ []) (refl, tt)

wire_run :
    wire (b'i' ∷ b's' ∷ []) (int 258 ∷ str (some (b'h' ∷ b'i' ∷ [])) ∷ [])
    ≡ ok (0 ∷ 0 ∷ 1 ∷ 2 ∷ 0 ∷ 0 ∷ 0 ∷ 4 ∷ b'h' ∷ b'i' ∷ 0 ∷ 0 ∷ [])
unfolding wire chunk str_chunk padded strncpy be32
wire_run = refl

-- A callback is a number, and notes it.
abbrev noted : List ℕ → ℕ → Msg → List ℕ
noted w c m = w ++ (c ∷ [])

abbrev note_number : List ℕ → ℕ → Msg → Run (List ℕ × List (Request ℕ))
note_number w c m = ok (noted w c m, [])

abbrev waits : ℕ → Option ℕ → ServerCb ℕ
waits seq cb = record { seq = seq; cb = cb; deleteme = false }

abbrev waiting : Server ℕ
waiting = record connected {
  cbs = waits 2 (some 10) ∷ waits 3 (some 11) ∷ waits 2 none ∷ waits 2 (some 12) ∷ [];
}

abbrev reply : Msg
reply = record { type = "MsgOK"; seq = 2; len = 1; protocol = 4; body = 0 ∷ [] }

answered-effects_example :
    answered note_number 5 [] waiting reply
    ≡ ok (10 ∷ 12 ∷ [], record waiting { cbs = waits 3 (some 11) ∷ [] })
answered-effects_example =
    answered-effects noted note_number (λ w c m. refl) 5 [] waiting reply
      (λ x. absurd (omega arith)) (refl, (refl, (refl, (refl, tt)))) (omega arith)

-- A callback that asks again.
abbrev asks : ℕ → ℕ → Msg → Run (ℕ × List (Request ℕ))
asks w c m = ok (w + 1, record { type = "MsgPING"; cb = some c; body = 7 ∷ [] } ∷ [])

abbrev asker : ServerCb ℕ
asker = record { seq = 1; cb = some 4; deleteme = false }

abbrev pong : Msg
pong = record { type = "MsgOK"; seq = 1; len = 0; protocol = 4; body = [] }

abbrev asked_again : Server ℕ
asked_again = record {
  seq = 2;
  cbs = record { seq = 2; cb = some 4; deleteme = false } ∷ [];
  header = header_proto_4;
  protocol = 4;
  sent = packet_bytes header_proto_4 2 27 (7 ∷ []) ∷ [];
}

asks_sent :
    sends asks
      (record (connected {C = ℕ}) { cbs = [] })
      (record { type = "MsgPING"; cb = some 4; body = 7 ∷ [] } ∷ [])
    ≡ ok asked_again
unfolding sends server_send server_sent server_cb_add next_seq packet_bytes type_of be32
asks_sent = refl

answered_one_example :
    answered asks 4 0 (record (connected {C = ℕ}) { cbs = asker ∷ [] }) pong ≡ ok (1, asked_again)
answered_one_example =
    answered_one asks 0 1 connected asked_again pong asker 4 []
      (record { type = "MsgPING"; cb = some 4; body = 7 ∷ [] } ∷ []) refl asks_sent
      (((λ e. omega (arith, e)), refl), tt) 4 [] (λ e. omega (arith, e)) refl refl tt (omega arith)
