-- ===== src/Structs/Messages.antt =====
-- The two handlers that parse a message with `parse_block`: of tpe_board.c and of objects.c.
use galaxie.Prelude.{
  ℕ, ◌≤◌, ◌≡◌, refl, arith, leb, length, Option, none, some, List, [], ◌∷◌, ◌==◌, if◌then◌else◌,
}
use galaxie.Run.{Run, ok, undefined, ◌>>=◌}
use galaxie.Parse.Fields.{Reference}
use galaxie.Board.{Message, Board, BoardUpdate}
use galaxie.Board.Slots.{receive_message}
use galaxie.Structs.{
  Mem, Mems, blank, put_int, put_long, put_str, put_structs, no_more, more, parse_block,
}
use galaxie.Structs.Tables.{parsemessage, objdescparse}

-- What the fields of a struct hold: 0 or NULL if nothing was written.
unfoldable int_at : ℕ → Mem → ℕ
int_at off blank = 0
int_at off (put_int at v mem) = let rest = int_at off mem in if at == off then v else rest
int_at off (put_long at v mem) = int_at off mem
int_at off (put_str at s mem) = int_at off mem
int_at off (put_structs at ss mem) = int_at off mem

unfoldable str_at : ℕ → Mem → Option (List ℕ)
str_at off blank = none
str_at off (put_int at v mem) = str_at off mem
str_at off (put_long at v mem) = str_at off mem
str_at off (put_str at s mem) = let rest = str_at off mem in if at == off then s else rest
str_at off (put_structs at ss mem) = str_at off mem

unfoldable structs_at : ℕ → Mem → Mems
structs_at off blank = no_more
structs_at off (put_int at v mem) = structs_at off mem
structs_at off (put_long at v mem) = structs_at off mem
structs_at off (put_str at s mem) = structs_at off mem
structs_at off (put_structs at ss mem) =
    let rest = structs_at off mem in if at == off then ss else rest

unfoldable references_of : Mems → List Reference
unfolding int_at
references_of no_more = []
references_of (more mem mems) =
    record { type = int_at 0 mem; value = int_at 1 mem } ∷ references_of mems

-- A title or a body that is NULL is empty here.
abbrev or_empty : Option (List ℕ) → List ℕ
or_empty none = []
or_empty (some s) = s

-- The struct that the table of messages fills.
unfoldable message_of : Mem → Message
unfolding int_at str_at structs_at references_of
message_of mem = record {
  board = int_at 0 mem;
  slot = int_at 1 mem;
  unread = int_at 5 mem;
  title = or_empty (str_at 2 mem);
  body = or_empty (str_at 3 mem);
  turn = int_at 4 mem;
  references = references_of (structs_at 7 mem);
}

-- `sizeof(struct message)` is 48 on a machine with pointers of 64 bits, `sizeof(struct objectdesc)`
-- is positive; only whether they are 0 is asked.
abbrev message_size : ℕ
message_size = 48

-- The boards, and the event that is sent.
unfoldable tpe_board_msg_message_receive :
    List Board → List ℕ → Run (List Board × Option BoardUpdate)
unfolding parse_block parsemessage message_of receive_message
tpe_board_msg_message_receive boards body =
    parse_block body parsemessage none message_size >>= λ parsed. elim parsed [
      | none ↦ ok (boards, none)
      | some r ↦ receive_message boards (message_of r.0)
    ]

-- The struct that tpe_obj_object_description_dump is given, of which it prints what is there. The
-- first three words of the message are printed before.
unfoldable tpe_obj_object_description_receive : List ℕ → Run (Option Mem)
unfolding parse_block objdescparse
tpe_obj_object_description_receive body =
    if leb 12 (length body)
    then (parse_block body objdescparse none 56 >>= λ parsed. elim parsed [
      | none ↦ ok none
      | some r ↦ ok (some r.0)
    ])
    else undefined

-- No message from the server reaches a board and no description of an object, of at least three
-- words, is read: both handlers pass NULL for the struct to fill, and parse_block returns NULL for
-- that before it reads a byte.
message_receive_unparsed :
    (boards : List Board) (body : List ℕ)
    → 12 ≤ length body
    → (tpe_board_msg_message_receive boards body ≡ ok (boards, none))
      × (tpe_obj_object_description_receive body ≡ ok none)
unfolding tpe_board_msg_message_receive tpe_obj_object_description_receive
message_receive_unparsed boards body h = (refl, ground arith)
