-- ===== src/Board/Slots.antt =====
-- tpe_board.c: a message is put into its slot, is marked as read, and the board is announced.
pub mod Laws
use galaxie.Prelude.{
  ℕ, zero, suc, ◌+◌, ◌-◌, ◌%◌, ◌^◌, Option, none, some, List, [], ◌∷◌, ltb, ◌==◌, if◌then◌else◌,
}
use galaxie.Run.{Run, ok, aborted, undefined, ◌>>=◌}
use galaxie.Board.{Message, Board, BoardUpdate, tpe_board_board_get_by_id, stored}

-- `messages[slot]`, which is undefined behind the end of the array.
unfoldable pub slot_at : List (Option Message) → ℕ → Run (Option Message)
slot_at [] i = undefined
slot_at (m ∷ ms) zero = ok m
slot_at (m ∷ ms) (suc i) = slot_at ms i

-- `messages[slot] = message`
unfoldable pub set_slot : List (Option Message) → ℕ → Message → List (Option Message)
set_slot [] i m = []
set_slot (x ∷ ms) zero m = some m ∷ ms
set_slot (x ∷ ms) (suc i) m = x ∷ set_slot ms i m

-- The event data that `tpe_board_board_changed_notify` sends.
unfoldable pub board_update : Board → BoardUpdate
board_update b = record {
  id = b.oid;
  name = b.name;
  desc = b.description;
  messages = b.received;
  unread = b.unread;
}

abbrev pub as_unread : Message → Message
as_unread m = record m { unread = 1 }

unfoldable pub received : Board → Message → Board
unfolding set_slot
received b m = record b {
  messages = set_slot b.messages m.slot m;
  unread = b.unread + 1;
  received = b.received + 1;
}

-- A message whose slot is taken is dropped.
unfoldable pub put_message :
    List Board → Board → Message → Option Message → List Board × Option BoardUpdate
unfolding stored received board_update
put_message bs b m (some _) = (bs, none)
put_message bs b m none = (stored bs (received b m), some (board_update (received b m)))

-- `tpe_board_msg_message_receive` behind the parse of its message: the boards, and the event that
-- is sent.
unfoldable pub receive_message : List Board → Message → Run (List Board × Option BoardUpdate)
unfolding tpe_board_board_get_by_id slot_at put_message
receive_message bs m = elim (tpe_board_board_get_by_id bs m.board) [
  | none ↦ ok (bs, none)
  | some b ↦ slot_at b.messages m.slot >>= λ there. ok (put_message bs b (as_unread m) there)
]

-- `unread --`: an int, which may go below 0.
unfoldable pub marked : Board → Message → Board
unfolding set_slot
marked b m = record b {
  messages = set_slot b.messages m.slot (record m { unread = 0 });
  unread = (b.unread + (2 ^ 32 - 1)) % 2 ^ 32;
}

-- The argument is a pointer to the message in its slot.
unfoldable pub tpe_board_board_message_read :
    List Board → Message → Run (List Board × Option BoardUpdate)
unfolding tpe_board_board_get_by_id stored marked board_update
tpe_board_board_message_read bs m =
    if m.unread == 0 then ok (bs, none) else elim (tpe_board_board_get_by_id bs m.board) [
      | none ↦ aborted
      | some b ↦ ok (stored bs (marked b m), some (board_update (marked b m)))
    ]
