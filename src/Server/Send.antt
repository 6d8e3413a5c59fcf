-- ===== src/Server/Send.antt =====
-- `server_connect`, `server_send`, `server_cb_add` and `server_send_strings` of server.c: what goes
-- out to a server, and the callback that waits for the answer.
pub mod RoundTrip
pub mod Batch
use Prim.Native.String.{String}
use galaxie.Prelude.{
  ℕ, ◌+◌, ◌*◌, ◌%◌, ◌^◌, false, Option, none, some, List, [], ◌∷◌, ◌++◌, length, leb, ◌==◌,
  if◌then◌else◌,
}
use galaxie.Wire.{be32}
use galaxie.Run.{Run, ok, exited, aborted}
use galaxie.Server.{Server, ServerCb}
use galaxie.Server.Names.{type_of}
use galaxie.Server.Frames.{header_proto_4}

-- The arguments of `server_send` but the server: `data` and `len` are one list.
pub record Request (C : Type 0) : Type 0 where
  pub type : String
  pub cb : Option C
  pub body : List ℕ

-- The value that `server_send` returns: 0, or `TPE_ERR_MSG_NOT_SUPPORTED`.
pub data Reply : Type 0 where
  done msg_not_supported : Reply

-- The packet that `server_send` builds in `buf`.
unfoldable pub packet_bytes : ℕ → ℕ → ℕ → List ℕ → List ℕ
packet_bytes header seq type body =
    be32 header ++ (be32 seq ++ (be32 type ++ (be32 (length body) ++ body)))

-- The sum of the lengths, and the bytes of `buf`: each string behind its length.
unfoldable pub total_strlen : List (List ℕ) → ℕ
total_strlen [] = 0
total_strlen (str ∷ strs) = length str + total_strlen strs

unfoldable pub string_bytes : List (List ℕ) → List ℕ
string_bytes [] = []
string_bytes (str ∷ strs) = be32 (length str) ++ (str ++ string_bytes strs)

-- The body that `server_send_strings` builds; the list holds the strings before the NULL that ends
-- the arguments.
unfoldable pub strings_body : List (List ℕ) → List ℕ
unfolding total_strlen string_bytes
strings_body strs = if total_strlen strs == 0 then [] else string_bytes strs

module _ {C : Type 0} where
  -- A server as `server_connect` leaves it; `header` is the number whose `htonl` the field holds.
  abbrev pub connected : Server C
  connected = record { seq = 1; cbs = []; header = header_proto_4; protocol = 4; sent = [] }

  unfoldable pub server_cb_add : Server C → ℕ → Option C → Server C
  server_cb_add s seq cb = record s {
    cbs = s.cbs ++ (record { seq = seq; cb = cb; deleteme = false } ∷ []);
  }

  unfoldable pub next_seq : Server C → ℕ
  next_seq s = (s.seq + 1) % 2 ^ 32

  unfoldable pub server_sent : Server C → ℕ → Request C → Server C
  unfolding packet_bytes next_seq server_cb_add
  server_sent s type r =
      server_cb_add
        (record s {
          seq = next_seq s;
          sent = s.sent ++ (packet_bytes s.header (next_seq s) type r.body ∷ []);
        })
        (next_seq s) r.cb

  unfoldable pub server_send : Server C → Request C → Run (Server C × Reply)
  server_send s r =
      if leb 100000 (length r.body) then aborted else elim (type_of s.protocol r.type) [
        | none ↦ exited
        | some none ↦ ok (s, msg_not_supported)
        | some (some type) ↦ ok (server_sent s type r, done)
      ]

  unfoldable server_send_strings :
      Server C → String → Option C → List (List ℕ) → Run (Server C × Reply)
  unfolding server_send strings_body
  server_send_strings s type cb strs =
      server_send s (record { type = type; cb = cb; body = strings_body strs })
