-- ===== src/Orders/Args/Write.antt =====
-- `argsizes` of tpe_orders.c: the size of an argument of an order and what its writer writes, and
-- `tpe_orders_order_update`, which sends an order with its arguments.
pub mod Laws
use galaxie.Prelude.{
  ℕ, zero, suc, ◌+◌, ◌*◌, ◌-◌, ◌/◌, ◌%◌, ◌^◌, Option, none, some, List, [], ◌∷◌, ◌++◌, length, ltb,
  leb, ◌==◌, if◌then◌else◌, replicate,
}
use galaxie.Run.{Run, ok, aborted, undefined, ◌>>=◌}
use galaxie.Wire.{be32, be64, le64, swap32, ntohll}
use galaxie.Parse.Fields.{OrderArg}
use galaxie.Server.{Server}
use galaxie.Server.Send.{Reply}
use galaxie.Server.Format.{strncpy, padded, int, raw, server_send_format}
use galaxie.Orders.{OrderDesc, tpe_order_orders_get_desc_by_id}
use galaxie.Orders.Args.{
  Coord, Selection, ArgData, coord, time, object, player, relcoord, range, list, string, unset,
  Order,
}

-- `x` in the memory of a little-endian host after `htonl`, of a 32-bit number in 64 bits.
unfoldable pub htonl_in_64 : ℕ → List ℕ
unfolding le64 swap32
htonl_in_64 x = le64 (swap32 (x % 2 ^ 32))

-- `ntohll` of a little-endian host.
unfoldable pub le_ntohll : ℕ → List ℕ
unfolding le64 ntohll swap32
le_ntohll x = le64 (ntohll swap32 x)

unfoldable pub selection_words : List Selection → List ℕ
selection_words [] = []
selection_words (s ∷ ss) = be32 s.selection ++ (be32 s.count ++ selection_words ss)

-- The bytes of the string that are counted: an int is compared with the unsigned `maxlen`.
abbrev clamped : ℕ → ℕ → ℕ
clamped len maxlen = if ltb maxlen len then maxlen else len

unfoldable pub arg_string_size_get : ℕ → Option (List ℕ) → ℕ
unfolding padded
arg_string_size_get maxlen none = 8
arg_string_size_get maxlen (some s) = 8 + padded (clamped (length s) maxlen)

-- The size of an argument: the type of the description picks the row of the table, and the data are
-- read as that type's.
unfoldable pub arg_size : ℕ → ArgData → Run ℕ
unfolding arg_string_size_get
arg_size type d =
    if type == 0
    then ok 24
    else if type == 1
    then ok 8
    else if type == 2
    then ok 4
    else if type == 3
    then ok 8
    else if type == 4
    then ok 28
    else if type == 5
    then ok 16
    else if type == 6
    then elim d [ list os ss ↦ ok (length ss * 8 + 16) | _ ↦ undefined ]
    else if type == 7
    then elim d [ string maxlen s ↦ ok (arg_string_size_get maxlen s) | _ ↦ undefined ]
    else if type == 8
    then ok 12
    else if type == 9
    then ok 8
    else undefined

-- What `arg_string_write` writes: all of the string, in front of the assertion that compares the
-- length with the size that was counted. `room` is what the buffer still has.
unfoldable pub arg_string_write : ℕ → ℕ → Option (List ℕ) → Run (List ℕ)
unfolding arg_string_size_get strncpy padded
arg_string_write room maxlen none = undefined
arg_string_write room maxlen (some s) =
    if ltb room (8 + padded (length s))
    then undefined
    else if padded (length s) + 8 == arg_string_size_get maxlen (some s)
    then ok (be32 0 ++ (be32 (padded (length s)) ++ strncpy s (padded (length s))))
    else aborted

-- The bytes that a writer writes. The rows of references have none, and a call of NULL is undefined.
unfoldable pub arg_write : ℕ → ℕ → ArgData → Run (List ℕ)
unfolding htonl_in_64 le_ntohll selection_words arg_string_write
arg_write room type d =
    if type == 0
    then elim d [ coord c ↦ ok (le_ntohll c.x ++ (le_ntohll c.y ++ le_ntohll c.z)) | _ ↦ undefined ]
    else if type == 1
    then elim d [ time turns max ↦ ok (be32 turns ++ be32 0) | _ ↦ undefined ]
    else if type == 2
    then elim d [ object oid ↦ ok (be32 oid) | _ ↦ undefined ]
    else if type == 3
    then elim d [ player pid flags ↦ ok (be32 pid ++ be32 0) | _ ↦ undefined ]
    else if type == 4
    then elim d [
      | relcoord obj c ↦ ok (be32 obj ++ (htonl_in_64 c.x ++ (htonl_in_64 c.y ++ htonl_in_64 c.z)))
      | _ ↦ undefined
    ]
    else if type == 5
    then elim d [ range value min max inc ↦ ok (be32 value ++ replicate 12 0) | _ ↦ undefined ]
    else if type == 6
    then elim d [
      | list os ss ↦ ok (replicate 12 0 ++ (be32 (length ss) ++ selection_words ss))
      | _ ↦ undefined
    ]
    else if type == 7
    then elim d [ string maxlen s ↦ arg_string_write room maxlen s | _ ↦ undefined ]
    else undefined

-- The first loop, over the arguments of the description and those of the order.
unfoldable pub args_size : List OrderArg → List ArgData → Run ℕ
unfolding arg_size
args_size [] ds = ok 0
args_size (a ∷ args) [] = undefined
args_size (a ∷ args) (d ∷ ds) =
    arg_size a.arg_type d >>= λ n. args_size args ds >>= λ rest. ok (n + rest)

-- The second loop: the bytes that are written to a buffer that has `room` bytes left.
unfoldable pub args_write : ℕ → List OrderArg → List ArgData → Run (List ℕ)
unfolding arg_write
args_write room [] ds = ok []
args_write room (a ∷ args) [] = undefined
args_write room (a ∷ args) (d ∷ ds) = arg_write room a.arg_type d >>= λ b.
    if leb (length b) room
    then (args_write (room - length b) args ds >>= λ rest. ok (b ++ rest))
    else undefined

-- The words of the buffer that are sent: those that have been written.
unfoldable pub args_bytes : List OrderArg → List ArgData → Run (List ℕ)
unfolding args_size args_write
args_bytes args ds = args_size args ds >>= λ total. args_write total args ds

-- `server` is that of the order's object; there is none if the object is not known.
unfoldable tpe_orders_order_update :
    {C : Type 0}
    → (ℕ → List ℕ)
    → List OrderDesc
    → Option (Server C)
    → Order
    → Run (Server C × Reply)
unfolding tpe_order_orders_get_desc_by_id args_bytes server_send_format
tpe_orders_order_update malloc ods server order =
    elim (tpe_order_orders_get_desc_by_id ods order.type) [
      | none ↦ undefined
      | some desc ↦ args_bytes desc.args order.args >>= λ buf. elim server [
        | none ↦ undefined
        | some s ↦
            server_send_format malloc s "MsgInsertOrder" none
              (b'V' ∷ b'i' ∷ b'i' ∷ b'i' ∷ b'0' ∷ b'0' ∷ b'r' ∷ [])
              (int order.oid ∷ int order.slot ∷ int order.type ∷ raw (length buf / 4) buf ∷ [])
      ]
    ]
