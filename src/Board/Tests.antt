-- ===== src/Board/Tests.antt =====
-- The theorems on boards at a board of three slots.
use galaxie.Prelude.{ℕ, ◌≡◌, refl, arith, none, some, List, [], ◌∷◌, ◌++◌, All}
use galaxie.Run.{ok}
use galaxie.Server.{Server}
use galaxie.Server.Send.{connected}
use galaxie.Board.{Message, Board, tpe_board_board_get_by_id, stored, description}
use galaxie.Board.Slots.{receive_message, put_message, slot_at, set_slot, received, board_update}
use galaxie.Board.Slots.Laws.{WellFormed, receive_message-WellFormed}
use galaxie.Board.Turns.{
  tpe_board_board_message_turn_get, tpe_board_board_message_unread_get,
  tpe_board_board_message_next, tpe_board_board_message_prev,
}
use galaxie.Board.Turns.Laws.{
  IsLatest, FirstUnread, turn_get-IsLatest, unread_get-FirstUnread, prev-next,
}

abbrev message : ℕ → ℕ → ℕ → Message
message slot unread turn = record {
  board = 7;
  slot = slot;
  unread = unread;
  title = [];
  body = [];
  turn = turn;
  references = [];
}

abbrev board : Board
board = record {
  oid = 7;
  name = none;
  description = none;
  nmessages = 3;
  updated = 0;
  messages = some (message 0 0 5) ∷ some (message 1 1 6) ∷ none ∷ [];
  nalloced = 3;
  unread = 1;
  received = 2;
}

abbrev boards : List Board
boards = board ∷ []

board-WellFormed : All WellFormed boards
board-WellFormed = (
  record {
    sized = (refl, refl);
    in_place = (refl, refl, (refl, refl, tt));
    counted = (refl, refl);
  },
  tt,
)

abbrev filled : Board
filled = record board {
  messages = some (message 0 0 5) ∷ some (message 1 1 6) ∷ some (message 2 1 8) ∷ [];
  unread = 2;
  received = 3;
}

receive_message-WellFormed_example : All WellFormed (filled ∷ [])
unfolding receive_message tpe_board_board_get_by_id slot_at put_message stored received set_slot
    board_update
receive_message-WellFormed_example =
    receive_message-WellFormed boards (message 2 0 8) (filled ∷ [], some (board_update filled))
      board-WellFormed refl

-- `eina_list_append` as seen through a pointer to the head.
abbrev linked : List Board → Board → List Board
linked [] b = []
linked (c ∷ bs) b = (c ∷ bs) ++ (b ∷ [])

-- The description of board 7 with three messages.
abbrev body : List ℕ
body =
    0 ∷ 0 ∷ 0 ∷ 7 ∷ 0 ∷ 0 ∷ 0 ∷ 0 ∷ 0 ∷ 0 ∷ 0 ∷ 0 ∷ 0 ∷ 0 ∷ 0 ∷ 3 ∷ 0 ∷ 0 ∷ 0 ∷ 0 ∷ 0 ∷ 0 ∷ 0 ∷ 9
    ∷ []

abbrev server : Server Unit
server = connected

abbrev described_board : Board
described_board = record board { name = some []; description = some []; updated = 9 }

turn_get-IsLatest_example : IsLatest board (some (message 1 1 6))
unfolding tpe_board_board_get_by_id tpe_board_board_message_turn_get
turn_get-IsLatest_example = turn_get-IsLatest boards 7 board board-WellFormed refl

unread_get-FirstUnread_example : FirstUnread board (some (message 1 1 6))
unfolding tpe_board_board_get_by_id tpe_board_board_message_unread_get
unread_get-FirstUnread_example = unread_get-FirstUnread boards 7 board board-WellFormed refl

prev-next_example : tpe_board_board_message_prev boards (message 1 1 6) ≡ ok (some (message 0 0 5))
unfolding tpe_board_board_get_by_id slot_at tpe_board_board_message_next
prev-next_example =
    prev-next boards board (message 0 0 5) (message 1 1 6) board-WellFormed refl refl (omega arith)
      (omega arith) refl
