-- ===== src/Server/Frames.antt =====
-- `server_receive` of server.c: the bytes of a connection are cut into packets, and what is left of
-- an incomplete packet is kept for the next call. A buffer's `size` is the length of its list; the
-- sums of sizes stay below 2 ^ 31, where no C sum of them wraps.
mod Rounds
mod Drain
pub mod Chunks
use galaxie.Prelude.{
  ℕ, zero, suc, ◌+◌, ◌%◌, ◌^◌, Bool, true, false, ◌||◌, List, [], ◌∷◌, ◌++◌, length, take, drop,
  leb, ltb, ◌==◌, if◌then◌else◌,
}
use galaxie.Wire.{word, is_negative}
use galaxie.Run.{Run, ok, exited, aborted, stuck, ◌>>=◌}
use galaxie.Server.{Packet}

-- `HEADER_PROTO_3` and `HEADER_PROTO_4`: "TP03", and "TP" with the bytes 4 and 0.
abbrev pub header_proto_3 : ℕ
header_proto_3 = 0x54503033

abbrev pub header_proto_4 : ℕ
header_proto_4 = 0x54500400

-- What one round of the loop sees at `start`.
pub data Next : Type 0 where
  partial : Next
  invalid : Next
  packet : Packet → List ℕ → Next

-- A round after its check of the magic. `len + 16` is an unsigned sum, which wraps.
unfoldable pub next_packet : ℕ → List ℕ → Next
next_packet proto start =
    let len = word start 3 in
    let size = (len + 16) % 2 ^ 32 in
    if ltb (length start) size
    then partial
    else packet
        (record {
          proto = proto;
          seq = word start 1;
          type = word start 2;
          len = len;
          body = take len (drop 16 start);
        })
        (drop size start)

unfoldable pub next : List ℕ → Next
unfolding next_packet
next start =
    if leb (length start) 16
    then partial
    else if word start 0 == header_proto_3
    then next_packet 3 start
    else if word start 0 == header_proto_4
    then next_packet 4 start
    else invalid

-- The four assertions that open `server_handle_packet`. Its `data` is never NULL here, so that the
-- last of them wants a body.
unfoldable pub is_refused : Packet → Bool
is_refused p = is_negative p.type || is_negative p.len || is_negative p.seq || p.len == 0

-- The server of a connection, and the bytes of its `buf`.
pub record Receiver (S : Type 0) : Type 0 where
  pub server : S
  pub buf : List ℕ

-- The bytes that the loop starts from: the saved ones, if there are any, and the new ones.
unfoldable pub joined : List ℕ → List ℕ → List ℕ
joined [] bytes = bytes
joined (b ∷ bs) bytes = (b ∷ bs) ++ bytes

abbrev pub saved : {S : Type 0} → S × List ℕ → Receiver S
saved out = record { server = out.0; buf = out.1 }

-- `handle` is the rest of `server_handle_packet`.
module _ {S : Type 0} (handle : S → Packet → Run S) where
  unfoldable pub handle_asserted : S → Packet → Run S
  unfolding is_refused
  handle_asserted s p = if is_refused p then aborted else handle s p

  -- `while (remaining > 16)`. A round that goes on takes 17 bytes or more.
  unfoldable pub drain : ℕ → S → List ℕ → Run (S × List ℕ)
  drain zero s start = stuck
  drain (suc fuel) s start = elim (next start) [
    | partial ↦ ok (s, start)
    | invalid ↦ exited
    | packet p rest ↦ handle_asserted s p >>= λ s'. drain fuel s' rest
  ]

  unfoldable pub receive : Receiver S → List ℕ → Run (Receiver S)
  unfolding drain joined
  receive r bytes =
      let start = joined r.buf bytes in
      drain (suc (length start)) r.server start >>= λ out. ok (saved out)
