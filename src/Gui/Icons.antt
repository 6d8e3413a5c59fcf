-- ===== src/Gui/Icons.antt =====
-- tpe_gui.c: the icons follow the updates of their boards.
use galaxie.Prelude.{
  ℕ, suc, ◌-◌, ◌≤◌, ◌≡◌, refl, arith, true, false, not, Option, none, some, List, [], ◌∷◌, ◌==◌,
  if◌then◌else◌, length, Bool-cases, inl, inr,
}
use galaxie.Parse.Fields.{Reference}
use galaxie.Board.{BoardUpdate}
use galaxie.Gui.Boards.{Icon, counts, new_icon, update_icon, gui_board_update, show_references}

abbrev icon_of : List Icon → ℕ → Option Icon
icon_of [] id = none
icon_of (icon ∷ icons) id =
    let rest = icon_of icons id in if icon.boardid == id then some icon else rest

-- The icon that a board has after an update: the name and the description that it had, or the
-- update's if it had none.
abbrev icon_after : BoardUpdate → Option Icon → Icon
icon_after update none = record {
  boardid = update.id;
  name = update.name;
  desc = update.desc;
  text = counts update;
  unread = not (update.unread == 0);
}
icon_after update (some icon) = record icon {
  text = counts update;
  unread = not (update.unread == 0);
}

update_icon_lem :
    (update : BoardUpdate) (icon : Icon)
    → (update_icon update icon).0 ≡ icon_after update (some icon)
unfolding update_icon
update_icon_lem update icon = ground arith

-- After an update the icon of its board shows the update's counts and whether there are unread
-- messages, and the icons of the other boards are as they were.
board_update-icon_of :
    (update : BoardUpdate) (icons : List Icon) (id : ℕ)
    → icon_of (gui_board_update update icons).0 id
      ≡ (if id == update.id then some (icon_after update (icon_of icons id)) else icon_of icons id)
unfolding gui_board_update
board_update-icon_of update [] id = rw (update_icon_lem update (new_icon update)) (ground arith)
board_update-icon_of update (icon ∷ icons) id = elim (Bool-cases (icon.boardid == update.id)) [
  | inl t ↦ elim (Bool-cases (icon.boardid == id)) [
    | inl u ↦
        let same : (id == update.id) ≡ true = ground (arith, t, u) in
        rw (t, update_icon_lem update icon, u, same) refl
    | inr u ↦
        let other : (id == update.id) ≡ false = ground (arith, t, u) in
        rw (t, update_icon_lem update icon, u, other) refl
  ]
  | inr t ↦ elim (Bool-cases (icon.boardid == id)) [
    | inl u ↦ let other : (id == update.id) ≡ false = ground (arith, t, u) in rw (t, u, other) refl
    | inr u ↦ rw (t, u) (board_update-icon_of update icons id)
  ]
]

-- A box shows three references at most.
show_references_bound :
    (icon : Reference → Option ℕ) (rs : List Reference) (ref : ℕ)
    → length (show_references icon ref rs) ≤ 3 - ref
unfolding show_references
show_references_bound icon [] ref = omega arith
show_references_bound icon (r ∷ rs) ref =
    ground (arith, show_references_bound icon rs ref, show_references_bound icon rs (suc ref))
