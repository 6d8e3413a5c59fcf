-- ===== src/Gui/Clicks.antt =====
-- A user who clicks on the icon of a board reads its messages.
use galaxie.Prelude.{
  ℕ, zero, suc, ◌^◌, ◌<◌, ◌≡◌, refl, sym, ap, ◌∙◌, arith, false, Option, some, none, ◌≢◌, ◌-◌, leb,
  take, length, List, [], ◌∷◌, ◌==◌, All, Bool-cases, Option-cases, inl, inr,
}
use mathlib.Core.Path.{subst}
use galaxie.Run.{Run, ok, ◌>>=◌}
use galaxie.Parse.Fields.{Reference}
use galaxie.Board.{Message, Board, tpe_board_board_get_by_id, stored}
use galaxie.Board.Slots.{slot_at, set_slot, marked, tpe_board_board_message_read}
use galaxie.Board.Slots.Laws.{WellFormed, get_by_id-All, stored-All, marked-WellFormed}
use galaxie.Board.Turns.{tpe_board_board_message_unread_get}
use galaxie.Board.Turns.Laws.{FirstUnread, unread_get-FirstUnread, slot_of_message}
use galaxie.Gui.Boards.{Box, show_references, gui_messagebox_message_set, board_mouse_down}

-- The board of that number, once its fields are assigned.
get_by_id-stored :
    (bs : List Board) (id : ℕ) (b c : Board)
    → tpe_board_board_get_by_id bs id ≡ some b
    → c.oid ≡ id
    → tpe_board_board_get_by_id (stored bs c) id ≡ some c
unfolding tpe_board_board_get_by_id stored
get_by_id-stored [] id b c h e = cc
get_by_id-stored (x ∷ bs) id b c h e = elim (Bool-cases (x.oid == c.oid)) [
  | inl t ↦ rw t (ground (arith, e))
  | inr t ↦
      let other : (x.oid == id) ≡ false = ground (arith, t, e) in
      rw (t, tpe_board_board_get_by_id, other)
        (get_by_id-stored bs id b c (rw (tpe_board_board_get_by_id, other) at h) e)
]

take_nil : (n : ℕ) → take {A = ℕ} n [] ≡ []
take_nil zero = refl
take_nil (suc n) = refl

-- The objects of references that have an icon.
abbrev pub icons : (Reference → Option ℕ) → List Reference → List ℕ
icons icon [] = []
icons icon (r ∷ rs) = elim (icon r) as (λ _. List ℕ) [
  | none ↦ icons icon rs
  | some oid ↦ oid ∷ icons icon rs
]

show_references_lem :
    (icon : Reference → Option ℕ) (rs : List Reference) (ref : ℕ)
    → show_references icon ref rs ≡ take (3 - ref) (icons icon rs)
unfolding show_references
show_references_lem icon [] ref = sym (take_nil (3 - ref))
show_references_lem icon (r ∷ rs) ref = elim (Option-cases (icon r)) [
  | inl e ↦ rw (show_references, icons, e) (show_references_lem icon rs ref)
  | inr (oid, e) ↦
      rw (show_references, icons, e)
        (elim (Bool-cases (leb 3 ref)) [
          | inl t ↦ let full : 3 - ref ≡ 0 = ground (arith, t) in rw (t, full) refl
          | inr t ↦
              let room : 3 - ref ≡ suc (3 - suc ref) = ground (arith, t) in
              rw (t, room) (ap (λ oids. oid ∷ oids) (show_references_lem icon rs (suc ref)))
        ])
]

-- A box that a click has opened: it shows a message that stands unread in the board, and the first
-- three of its references that have an icon.
abbrev pub Opened : (Reference → Option ℕ) → Board → Option Box → Type 0
Opened icon b none = ⊥
Opened icon b (some box) =
    (box.message.unread ≢ 0)
    × (slot_at b.messages box.message.slot ≡ ok (some box.message))
    × (box.references ≡ take 3 (icons icon box.message.references))

-- Every message that is unread in the board `c` stood in the same slot of `b`.
abbrev Remains : Board → Board → Type 0
Remains c b =
    (i : ℕ) (m : Message)
    → slot_at c.messages i ≡ ok (some m)
    → m.unread ≢ 0
    → slot_at b.messages i ≡ ok (some m)

slot_at-set_slot :
    (ms : List (Option Message)) (j : ℕ) (x : Message) (i : ℕ) (m : Message)
    → x.unread ≡ 0
    → slot_at (set_slot ms j x) i ≡ ok (some m)
    → m.unread ≢ 0
    → slot_at ms i ≡ ok (some m)
unfolding slot_at set_slot
slot_at-set_slot [] j x i m z e u = e
slot_at-set_slot (y ∷ ms) zero x zero m z e u = let same : x ≡ m = cc in absurd (u (cc))
slot_at-set_slot (y ∷ ms) zero x (suc i) m z e u = e
slot_at-set_slot (y ∷ ms) (suc j) x zero m z e u = e
slot_at-set_slot (y ∷ ms) (suc j) x (suc i) m z e u = slot_at-set_slot ms j x i m z e u

Opened-Remains :
    (icon : Reference → Option ℕ) (c b : Board) (boxes : List (Option Box))
    → Remains c b
    → All (Opened icon c) boxes
    → All (Opened icon b) boxes
Opened-Remains icon c b [] r h = tt
Opened-Remains icon c b (none ∷ boxes) r h = elim h.0 [ ]
Opened-Remains icon c b (some box ∷ boxes) r ((u, at, refs), h) =
    ((u, r box.message.slot box.message at u, refs), Opened-Remains icon c b boxes r h)

-- The boards are well formed, and that board is one of them, with so many unread messages.
abbrev pub HasUnread : List Board → ℕ → Board → ℕ → Type 0
HasUnread bs id b n =
    All WellFormed bs × (tpe_board_board_get_by_id bs id ≡ some b) × (b.unread ≡ n)

one_click :
    (icon : Reference → Option ℕ) (bs : List Board) (id : ℕ) (b : Board) (n : ℕ)
    → HasUnread bs id b (suc n)
    → suc n < 2 ^ 32
    → (out : List Board × Option Box) × (board_mouse_down icon bs id ≡ ok out)
      × Opened icon b out.1
      × ((c : Board) × HasUnread out.0 id c n × Remains c b)
unfolding board_mouse_down gui_messagebox_message_set tpe_board_board_message_read marked
one_click icon bs id b n (w, found, count) small =
    let first = unread_get-FirstUnread bs id b w found in
    elim (Option-cases (tpe_board_board_message_unread_get bs id)) [
      | inl e ↦ absurd (omega (arith, subst (FirstUnread b) e first, count))
      | inr (m, e) ↦
          let (positive, unread, here) = subst (FirstUnread b) e first in
          let (wb, number) = get_by_id-All WellFormed bs id w found in
          let own : m.board ≡ b.oid =
            (slot_of_message b.oid 0 b.messages m.slot m wb.in_place here).0 in
          let board : tpe_board_board_get_by_id bs m.board ≡ some b =
            ap (tpe_board_board_get_by_id bs) (own ∙ number) ∙ found in
          let new : (m.unread == 0) ≡ false = ground arith in
          let box : Box = record {
            message = m;
            references = show_references icon 0 m.references;
          } in
          (
            (stored bs (marked b m), some box),
            rw (board_mouse_down, e, tpe_board_board_message_read, new, board) refl,
            (unread, here, show_references_lem icon m.references 0),
            (
              marked b m,
              (
                stored-All WellFormed bs (marked b m) w
                    (marked-WellFormed b m wb (sym own) unread (omega (arith, count)) here),
                get_by_id-stored bs id b (marked b m) found number,
                omega (arith, count),
              ),
              (λ i x at u.
                  slot_at-set_slot b.messages m.slot (record m { unread = 0 }) i x refl at u),
            ),
          )
    ]

-- A click on the icon, so many times: the boards, and the boxes in their order.
unfoldable pub clicks :
    (Reference → Option ℕ) → ℕ → List Board → ℕ → Run (List Board × List (Option Box))
unfolding board_mouse_down
clicks icon zero bs id = ok (bs, [])
clicks icon (suc n) bs id = board_mouse_down icon bs id >>= λ out.
    clicks icon n out.0 id >>= λ rest. ok (rest.0, out.1 ∷ rest.1)

-- A board with n unread messages, n below 2 ^ 32, on well formed boards, has none after n clicks on
-- its icon. Every click is defined and opens a box, which shows a message that stood unread in the
-- board, and the first three of its references that have an icon.
pub clicks-HasUnread :
    (icon : Reference → Option ℕ) (n : ℕ) (bs : List Board) (id : ℕ) (b : Board)
    → HasUnread bs id b n
    → n < 2 ^ 32
    → (out : List Board × List (Option Box)) × (clicks icon n bs id ≡ ok out)
      × ((c : Board) × HasUnread out.0 id c 0)
      × (length out.1 ≡ n)
      × All (Opened icon b) out.1
unfolding clicks
clicks-HasUnread icon zero bs id b h small = ((bs, []), refl, (b, h), refl, tt)
clicks-HasUnread icon (suc n) bs id b h small =
    let (out, e, opened, (c, left, remains)) = one_click icon bs id b n h small in
    let (last, f, done, number, boxes) = clicks-HasUnread icon n out.0 id c left (omega arith) in
    (
      (last.0, out.1 ∷ last.1),
      rw (clicks, e, f) refl,
      done,
      ap suc number,
      (opened, Opened-Remains icon c b last.1 remains boxes),
    )
