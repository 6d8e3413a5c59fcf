-- ===== src/Board/Turns.antt =====
-- tpe_board.c: the searches through the messages of a board.
pub mod Laws
use galaxie.Prelude.{
  ℕ, zero, suc, ◌+◌, ◌-◌, ◌%◌, ◌^◌, Bool, Option, none, some, List, [], ◌∷◌, length, take, drop,
  ltb, ◌==◌, if◌then◌else◌, not,
}
use galaxie.Run.{Run, ok, aborted, undefined, ◌>>=◌}
use galaxie.Board.{Message, Board, tpe_board_board_get_by_id}
use galaxie.Board.Slots.{slot_at}

-- `a < b` for ints.
abbrev pub int_lt : ℕ → ℕ → Bool
int_lt a b = ltb ((a + 2 ^ 31) % 2 ^ 32) ((b + 2 ^ 31) % 2 ^ 32)

-- The loops run over the first `nmessages` slots, which the array has, as Receive shows.
unfoldable pub first_unread : List (Option Message) → Option Message
first_unread [] = none
first_unread (none ∷ ms) = first_unread ms
first_unread (some m ∷ ms) = let rest = first_unread ms in if m.unread == 0 then rest else some m

unfoldable pub tpe_board_board_message_unread_get : List Board → ℕ → Option Message
unfolding tpe_board_board_get_by_id first_unread
tpe_board_board_message_unread_get bs id = elim (tpe_board_board_get_by_id bs id) [
  | none ↦ none
  | some b ↦ first_unread (take b.nmessages b.messages)
]

unfoldable pub latest : Message → List (Option Message) → Message
latest message [] = message
latest message (none ∷ ms) = latest message ms
latest message (some m ∷ ms) = latest (if int_lt message.turn m.turn then m else message) ms

unfoldable pub latest_of : List (Option Message) → Option Message
unfolding latest
latest_of [] = none
latest_of (none ∷ ms) = none
latest_of (some m ∷ ms) = some (latest m ms)

unfoldable pub tpe_board_board_message_turn_get : List Board → ℕ → Option Message
unfolding tpe_board_board_get_by_id latest_of
tpe_board_board_message_turn_get bs id = elim (tpe_board_board_get_by_id bs id) [
  | none ↦ none
  | some b ↦ latest_of (take b.nmessages b.messages)
]

-- The board of a message, which `assert(board)` wants.
unfoldable pub with_board : {A : Type 0} → List Board → Message → (Board → Run A) → Run A
unfolding tpe_board_board_get_by_id
with_board bs m f = elim (tpe_board_board_get_by_id bs m.board) [ none ↦ aborted | some b ↦ f b ]

unfoldable pub tpe_board_board_message_next : List Board → Message → Run (Option Message)
unfolding with_board slot_at
tpe_board_board_message_next bs m = with_board bs m (λ b.
    if ltb ((m.slot + 1) % 2 ^ 32) b.nmessages
    then slot_at b.messages ((m.slot + 1) % 2 ^ 32)
    else ok (some m))

unfoldable pub tpe_board_board_message_prev : List Board → Message → Run (Option Message)
unfolding with_board slot_at
tpe_board_board_message_prev bs m =
    with_board bs m (λ b. if int_lt 0 m.slot then slot_at b.messages (m.slot - 1) else ok (some m))

-- The loop from the message's slot on; a slot that is NULL is read through.
unfoldable next_other : ℕ → List (Option Message) → Run (Option Message)
next_other turn [] = ok none
next_other turn (none ∷ ms) = undefined
next_other turn (some m ∷ ms) =
    let rest = next_other turn ms in if turn == m.turn then rest else ok (some m)

abbrev or_last : Board → Option Message → Run (Option Message)
or_last b (some m) = ok (some m)
or_last b none = if b.nmessages == 0 then undefined else slot_at b.messages (b.nmessages - 1)

unfoldable pub tpe_board_board_message_next_turn : List Board → Message → Run (Option Message)
unfolding with_board next_other slot_at
tpe_board_board_message_next_turn bs m =
    with_board bs m (λ b. next_other m.turn (drop m.slot b.messages) >>= λ found. or_last b found)

-- The loop down from slot `i`, which does not look at slot 0.
unfoldable prev_other : ℕ → List (Option Message) → ℕ → Run (Option Message)
unfolding slot_at
prev_other turn ms zero = slot_at ms 0
prev_other turn ms (suc i) = slot_at ms (suc i) >>= λ there.
    let rest = prev_other turn ms i in
    elim there [ none ↦ undefined | some m ↦ if turn == m.turn then rest else ok (some m) ]

unfoldable pub tpe_board_board_message_prev_turn : List Board → Message → Run (Option Message)
unfolding with_board prev_other
tpe_board_board_message_prev_turn bs m = with_board bs m (λ b. prev_other m.turn b.messages m.slot)
