-- ===== src/Server/Send/RoundTrip.antt =====
-- What `server_send` puts on the wire is what `server_receive` takes from it.
use galaxie.Prelude.{
  ℕ, ◌+◌, ◌%◌, ◌^◌, ◌<◌, ◌≡◌, refl, ◌⊎◌, List, [], ◌∷◌, ◌++◌, arith, length, length-append, take,
  drop, take-length_append, drop-length_append, ap, ◌∙◌, drop-add,
}
use galaxie.Wire.{IsU32, be32, word}
use galaxie.Run.{Run, ok, aborted, ◌>>=◌, >>=_assoc}
use galaxie.Server.{Server, Packet}
use galaxie.Server.Frames.{
  header_proto_3, header_proto_4, next, packet, is_refused, Receiver, receive,
}
use galaxie.Server.Frames.Chunks.{receive-append, receive_one, receive-refused, receive_partial}
use mathlib.Core.List.{append-nil}
use galaxie.Server.Send.{Request, packet_bytes, next_seq}

-- The header and the protocol of a server belong together.
abbrev IsHeaderOf : ℕ → ℕ → Type 0
IsHeaderOf header protocol =
    ((header ≡ header_proto_3) × (protocol ≡ 3)) ⊎ ((header ≡ header_proto_4) × (protocol ≡ 4))

module _ (header seq type : ℕ) (body more : List ℕ) where
  abbrev bytes : List ℕ
  bytes = packet_bytes header seq type body ++ more

  words_of_packet :
      IsU32 header
      → IsU32 seq
      → IsU32 type
      → length body < 2 ^ 31
      → (word bytes 0 ≡ header)
        × (word bytes 1 ≡ seq)
        × (word bytes 2 ≡ type)
        × (word bytes 3 ≡ length body)
  unfolding packet_bytes word be32
  words_of_packet hh hs ht hb = omega arith

  length_of_packet : length bytes ≡ 16 + length body + length more
  unfolding packet_bytes be32
  length_of_packet = omega (arith, length-append body more)

  body_of_packet : take (length body) (drop 16 bytes) ≡ body
  unfolding packet_bytes be32
  body_of_packet = take-length_append body more

  rest_of_packet : length body < 2 ^ 31 → drop ((length body + 16) % 2 ^ 32) bytes ≡ more
  unfolding packet_bytes be32
  rest_of_packet hb =
      ap (λ k. drop k bytes) {x = (length body + 16) % 2 ^ 32} {y = 16 + length body} (omega arith)
      ∙ drop-add 16 (length body) bytes
      ∙ drop-length_append body more

  -- One round of the loop of `server_receive` on a packet that `server_send` built, with any bytes
  -- behind it.
  next-packet_bytes :
      (protocol : ℕ)
      → IsHeaderOf header protocol
      → IsU32 seq
      → IsU32 type
      → length body < 2 ^ 31
      → 0 < length body + length more
      → next bytes
        ≡ packet
            (record { proto = protocol; seq = seq; type = type; len = length body; body = body })
            more
  unfolding next
  next-packet_bytes protocol h hs ht hb hm =
      ground (arith, words_of_packet, length_of_packet, body_of_packet, rest_of_packet)

abbrev fresh : {S : Type 0} → S → Receiver S
fresh t = record { server = t; buf = [] }

-- The packet that goes out for a request, as the receiver's handler sees it.
abbrev pub packet_of : {C : Type 0} → Server C → ℕ → Request C → Packet
packet_of s type r = record {
  proto = s.protocol;
  seq = s.seq + 1;
  type = type;
  len = length r.body;
  body = r.body;
}

next_seq_lem : {C : Type 0} (s : Server C) → s.seq + 1 < 2 ^ 31 → next_seq s ≡ s.seq + 1
unfolding next_seq
next_seq_lem s h = omega arith

module _ {S C : Type 0} (handle : S → Packet → Run S) where
  receive-packet_bytes :
      (t : S) (s : Server C) (type : ℕ) (r : Request C)
      → IsHeaderOf s.header s.protocol
      → s.seq + 1 < 2 ^ 31
      → type < 2 ^ 31
      → 0 < length r.body
      → length r.body < 2 ^ 31
      → receive handle (fresh t) (packet_bytes s.header (next_seq s) type r.body)
        ≡ (handle t (packet_of s type r) >>= λ t'. ok (fresh t'))
  unfolding is_refused next
  receive-packet_bytes t s type r h hs ht h0 hb = rw (next_seq_lem s hs) (
      receive_one handle t (packet_bytes s.header (s.seq + 1) type r.body)
        (rw append-nil at (
          next-packet_bytes s.header (s.seq + 1) type r.body [] s.protocol h (omega arith)
            (omega arith) hb (omega arith)))
        (ground arith) refl)

  -- The packet that `server_send` builds for a request with a body is handed to the handler of a
  -- receiver with an empty buffer, once and whole, whatever bytes follow it, and those are received
  -- after it. The sender's header is that of its protocol, and its sequence number, the type and the
  -- length of the body are below 2 ^ 31.
  pub receive-server_sent :
      (t : S) (s : Server C) (type : ℕ) (r : Request C) (more : List ℕ)
      → IsHeaderOf s.header s.protocol
      → s.seq + 1 < 2 ^ 31
      → type < 2 ^ 31
      → 0 < length r.body
      → length r.body < 2 ^ 31
      → receive handle (fresh t) (packet_bytes s.header (next_seq s) type r.body ++ more)
        ≡ (handle t (packet_of s type r) >>= λ t'. receive handle (fresh t') more)
  receive-server_sent t s type r more h hs ht h0 hb =
      receive-append handle (fresh t) (packet_bytes s.header (next_seq s) type r.body) more
      ∙ ap (λ m. m >>= λ r'. receive handle r' more) (receive-packet_bytes t s type r h hs ht h0 hb)
      ∙ >>=_assoc (handle t (packet_of s type r)) (λ t'. ok (fresh t'))
          (λ r'. receive handle r' more)

module _ {S : Type 0} (handle : S → Packet → Run S) where
  -- The packet that `server_send` builds for a request with no body, under the header of a protocol
  -- and with numbers that fit their words, stays in a receiver's buffer that was empty, and with one
  -- more byte behind it the receiver's assertions end the program.
  receive_no_body :
      (t : S) (header protocol seq type b : ℕ) (more : List ℕ)
      → IsHeaderOf header protocol
      → IsU32 seq
      → IsU32 type
      → (receive handle (fresh t) (packet_bytes header seq type [])
          ≡ ok (record { server = t; buf = packet_bytes header seq type [] }))
        × (receive handle (fresh t) (packet_bytes header seq type [] ++ (b ∷ more)) ≡ aborted)
  unfolding is_refused next packet_bytes be32
  receive_no_body t header protocol seq type b more h hs ht = (
    receive_partial handle t (packet_bytes header seq type []) refl,
    receive-refused handle t (packet_bytes header seq type [] ++ (b ∷ more)) (
        rw
          (next-packet_bytes header seq type [] (b ∷ more) protocol h hs ht (omega arith)
            (omega arith))
          (ground arith)),
  )
