-- ===== src/Gui/Boards.antt =====
-- tpe_gui.c: the icons of the boards and the boxes that show messages.
use galaxie.Prelude.{
  ℕ, suc, Bool, true, false, Option, none, some, List, [], ◌∷◌, ◌++◌, ◌==◌, if◌then◌else◌, leb,
  take,
}
use galaxie.Run.{Run, ok, ◌>>=◌}
use galaxie.Decimal.{decimal}
use galaxie.Parse.Fields.{Reference}
use galaxie.Board.{Message, Board, BoardUpdate}
use galaxie.Board.Slots.{tpe_board_board_message_read}
use galaxie.Board.Turns.{
  tpe_board_board_message_unread_get, tpe_board_board_message_turn_get,
  tpe_board_board_message_next, tpe_board_board_message_prev, tpe_board_board_message_next_turn,
  tpe_board_board_message_prev_turn,
}

-- `struct gui_board`, less its object of Edje: `text` is what its part "Text" shows, and `unread`
-- says whether its state is BOARD_UNREAD.
pub record Icon : Type 0 where
  pub boardid : ℕ
  pub name : Option (List ℕ)
  pub desc : Option (List ℕ)
  pub text : List ℕ
  pub unread : Bool

-- The signals that an update sends to the icon.
pub data Signal : Type 0 where
  all_messages_read new_messages : Signal

-- `snprintf(buf, 20, "%d/%d", unread, messages)`
abbrev pub counts : BoardUpdate → List ℕ
counts update = take 19 (decimal update.unread ++ (b'/' ∷ decimal update.messages))

-- What an update does to the icon of its board.
unfoldable pub update_icon : BoardUpdate → Icon → Icon × List Signal
update_icon update icon =
    let shown : Icon = record icon { text = counts update } in
    if update.unread == 0
    then if icon.unread
      then (record shown { unread = false }, all_messages_read ∷ [])
      else (shown, [])
    else if icon.unread
    then (shown, [])
    else (record shown { unread = true }, new_messages ∷ [])

abbrev pub new_icon : BoardUpdate → Icon
new_icon update = record {
  boardid = update.id;
  name = update.name;
  desc = update.desc;
  text = [];
  unread = false;
}

-- The search through the icons; a new one is appended.
unfoldable pub gui_board_update : BoardUpdate → List Icon → List Icon × List Signal
unfolding update_icon
gui_board_update update [] = let r = update_icon update (new_icon update) in (r.0 ∷ [], r.1)
gui_board_update update (icon ∷ icons) =
    let rest = gui_board_update update icons in
    if icon.boardid == update.id
    then (let r = update_icon update icon in (r.0 ∷ icons, r.1))
    else (icon ∷ rest.0, rest.1)

-- What a message box shows: the message, and the objects of its references.
pub record Box : Type 0 where
  pub message : Message
  pub references : List ℕ

-- `gui_ref_object_get`: `known` says for which objects there is an icon.
unfoldable gui_ref_object_get : (ℕ → Bool) → ℕ → Reference → Option ℕ
gui_ref_object_get known reftype_object r =
    if r.type == reftype_object then if known r.value then some r.value else none else none

-- The loop over the references, from the number of those shown on: three places are there.
unfoldable pub show_references : (Reference → Option ℕ) → ℕ → List Reference → List ℕ
show_references icon ref [] = []
show_references icon ref (r ∷ rs) =
    let rest = show_references icon ref rs in
    let next = show_references icon (suc ref) rs in
    elim (icon r) as (λ _. List ℕ) [ none ↦ rest | some oid ↦ if leb 3 ref then [] else oid ∷ next ]

module _ (icon : Reference → Option ℕ) where
  -- The boards, in which the message is read now, and the box.
  unfoldable pub gui_messagebox_message_set : List Board → Message → Run (List Board × Box)
  unfolding tpe_board_board_message_read show_references
  gui_messagebox_message_set boards m = tpe_board_board_message_read boards m >>= λ out.
      ok (out.0, record { message = m; references = show_references icon 0 m.references })

  -- `board_mouse_down`: the new box, if there is a message to show.
  unfoldable pub board_mouse_down : List Board → ℕ → Run (List Board × Option Box)
  unfolding gui_messagebox_message_set
  board_mouse_down boards id = elim (tpe_board_board_message_unread_get boards id) [
    | some m ↦ gui_messagebox_message_set boards m >>= λ out. ok (out.0, some out.1)
    | none ↦ elim (tpe_board_board_message_turn_get boards id) [
      | some m ↦ gui_messagebox_message_set boards m >>= λ out. ok (out.0, some out.1)
      | none ↦ ok (boards, none)
    ]
  ]

  -- The button: `three` says whether the signal has a 3 in it, `next` whether the source is "Next".
  unfoldable chosen : Bool → Bool → List Board → Message → Run (Option Message)
  chosen true true boards m = tpe_board_board_message_next_turn boards m
  chosen true false boards m = tpe_board_board_message_prev_turn boards m
  chosen false true boards m = tpe_board_board_message_next boards m
  chosen false false boards m = tpe_board_board_message_prev boards m

  -- The box that the message is shown in: with the middle button a new one.
  unfoldable gui_edje_message_change :
      Bool → Bool → List Board → Message → Run (List Board × Option Box)
  unfolding chosen gui_messagebox_message_set
  gui_edje_message_change three next boards m = chosen three next boards m >>= λ found. elim found [
    | none ↦ ok (boards, none)
    | some m' ↦ gui_messagebox_message_set boards m' >>= λ out. ok (out.0, some out.1)
  ]
