-- ===== src/Gui/Tests.antt =====
-- The theorems on the window at one board with two unread messages, and at a map.
use galaxie.Prelude.{
  ℕ, ◌≡◌, refl, arith, length, All, false, Option, none, some, List, [], ◌∷◌, if◌then◌else◌, ◌==◌,
}
use galaxie.Run.{ok, undefined}
use galaxie.Parse.Fields.{Reference}
use galaxie.Board.{Message, Board, tpe_board_board_get_by_id}
use galaxie.Objects.{Object, empty_object}
use galaxie.Gui.Summary.{pieces, star_summary, star_summary_overflow}
use galaxie.Gui.Visible.{Screen, update, delete, hear_all, IsExact, hear_all-IsExact}
use galaxie.Gui.Boards.{Box}
use galaxie.Gui.Clicks.{HasUnread, Opened, clicks, clicks-HasUnread}

abbrev message : ℕ → Message
message slot = record {
  board = 7;
  slot = slot;
  unread = 1;
  title = [];
  body = [];
  turn = slot;
  references = [];
}

abbrev board : Board
board = record {
  oid = 7;
  name = none;
  description = none;
  nmessages = 2;
  updated = 0;
  messages = some (message 0) ∷ some (message 1) ∷ [];
  nalloced = 2;
  unread = 2;
  received = 2;
}

abbrev boards : List Board
boards = board ∷ []

abbrev no_icon : Reference → Option ℕ
no_icon r = none

boards-HasUnread : HasUnread boards 7 board 2
unfolding tpe_board_board_get_by_id
boards-HasUnread = (
  (
    record {
      sized = (refl, refl);
      in_place = (refl, refl, (refl, refl, tt));
      counted = (refl, refl);
    },
    tt,
  ),
  refl,
  refl,
)

clicks-HasUnread_example :
    (out : List Board × List (Option Box)) × (clicks no_icon 2 boards 7 ≡ ok out)
    × ((c : Board) × HasUnread out.0 7 c 0)
    × (length out.1 ≡ 2)
    × All (Opened no_icon board) out.1
clicks-HasUnread_example = clicks-HasUnread no_icon 2 boards 7 board boards-HasUnread (omega arith)

abbrev star : Object
star = record (empty_object 5) { type = 2; name = some (b'S' ∷ []); children = 6 ∷ [] }

abbrev planet : Object
planet = record (empty_object 6) {
  type = 3;
  parent = 5;
  name = some (b'P' ∷ []);
  owner = 0xffff_ffff;
}

abbrev find : ℕ → Option Object
find k = if k == 5 then some star else if k == 6 then some planet else none

-- The title of 16 bytes and a planet, in a buffer of 10 bytes.
abbrev title : List ℕ
title =
    b'<' ∷ b't' ∷ b'i' ∷ b't' ∷ b'l' ∷ b'e' ∷ b'>' ∷ b'S' ∷ b'<' ∷ b'/' ∷ b't' ∷ b'i' ∷ b't' ∷ b'l'
    ∷ b'e' ∷ b'>' ∷ []

abbrev of_planet : List ℕ
of_planet =
    b'<' ∷ b'p' ∷ b'l' ∷ b'a' ∷ b'n' ∷ b'e' ∷ b't' ∷ b'>' ∷ b'P' ∷ b'<' ∷ b'/' ∷ b'p' ∷ b'l' ∷ b'a'
    ∷ b'n' ∷ b'e' ∷ b't' ∷ b'>' ∷ []

star_summary_overflow_example : star_summary find [] 10 star ≡ undefined
unfolding pieces
star_summary_overflow_example =
    star_summary_overflow find [] 10 star (title ∷ []) of_planet [] refl (omega arith)

abbrev empty_screen : Screen
empty_screen = record { gui = λ k. false; visible = [] }

hear_all-IsExact_example : IsExact (hear_all (update find star ∷ delete star ∷ []) empty_screen)
hear_all-IsExact_example =
    hear_all-IsExact (update find star ∷ delete star ∷ []) empty_screen (λ oid. refl)
