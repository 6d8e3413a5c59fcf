-- ===== src/Board/Receive.antt =====
-- The description of a board arrives: its new slots, and the list of boards.
use galaxie.Prelude.{ℕ, ◌≡◌, refl, List, [], ◌∷◌, ◌++◌, length, All}
use galaxie.Run.{ok, >>=-Returns, Returns-ok}
use galaxie.Server.{Server}
use galaxie.Parse.Packet.{tpe_util_parse_packet}
use galaxie.Board.{
  Board, tpe_board_board_get_by_id, stored, empty_board, tpe_board_board_add, board_for,
  description, described, first_int, request_new, tpe_board_msg_board_receive,
}
use galaxie.Board.Slots.Laws.{WellFormed, InPlace, count_unread, count_messages}

-- What `eina_list_append` does to the list that the caller still points to: its element is linked
-- to the end of a list that has a head, and a caller without a list has none afterwards.
abbrev pub LinksAtEnd : (List Board → Board → List Board) → Type 0
LinksAtEnd append =
    ((b : Board) → append [] b ≡ [])
    × ((c : Board) (bs : List Board) (b : Board) → append (c ∷ bs) b ≡ (c ∷ bs) ++ (b ∷ []))

-- A board but for the number of its slots, which its description may have raised.
record Described (b : Board) : Type 0 where
  sized : length b.messages ≡ b.nalloced
  in_place : InPlace b.oid 0 b.messages
  counted : (b.unread ≡ count_unread b.messages) × (b.received ≡ count_messages b.messages)

abbrev AllWellFormed : {S : Type 0} → List Board × S → Type 0
AllWellFormed out = All WellFormed out.0

abbrev IsEmpty : {S : Type 0} → List Board × S → Type 0
IsEmpty out = out.0 ≡ []

-- The first board is lost: as the list has no head yet and `tpe_board_board_add` drops the one that
-- `eina_list_append` returns, the description of any board leaves the list empty.
board_receive_lost :
    {C : Type 0} (append : List Board → Board → List Board)
    → LinksAtEnd append
    → (server : Server C) (body : List ℕ) (out : List Board × Server C)
    → tpe_board_msg_board_receive append [] server body ≡ ok out
    → out.0 ≡ []
unfolding tpe_board_msg_board_receive board_for tpe_board_board_add stored tpe_board_board_get_by_id
board_receive_lost append l server body out h =
    Returns-ok IsEmpty (tpe_board_msg_board_receive append [] server body)
      (>>=-Returns IsEmpty (tpe_util_parse_packet body (b'i' ∷ [])) _ (λ first e₁.
        >>=-Returns IsEmpty (first_int first.values) _ (λ id e₂.
          >>=-Returns IsEmpty (tpe_util_parse_packet body (b'i' ∷ b's' ∷ b's' ∷ b'i' ∷ b'l' ∷ [])) _
            (λ parsed e₃. >>=-Returns IsEmpty (description parsed.values) _ (λ d e₄.
              >>=-Returns IsEmpty (request_new server d.id (described (empty_board id) d)) _
                (λ new e₅. rw l.0 refl))))))
      h
