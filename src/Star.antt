-- ===== src/Star.antt =====
-- gui/star.c: the widget that shows a star. What the Evas library draws is not modelled.
pub mod Timer
pub mod Name
mod Tests
use galaxie.Prelude.{
  ℕ, Bool, true, false, ◌&&◌, Option, none, some, List, [], ◌∷◌, ◌++◌, ◌==◌, if◌then◌else◌, take,
  length,
}
use galaxie.Run.{Run, ok, undefined, ◌>>=◌}
use galaxie.Wire.{minus_one}
use galaxie.Decimal.{decimal}

-- `Smart_Data`, less its parts for Evas; `name` is the text of the object of that name.
pub record Star : Type 0 where
  pub x : ℕ
  pub y : ℕ
  pub id : ℕ
  pub name : Option (List ℕ)
  pub intimer : Option ℕ
  pub defaultname : Bool

-- What the macro CHECK_TYPE finds: a star, or something else, or no data, or NULL.
pub data Widget : Type 0 where
  star : Star → Widget
  no_star : Widget

-- What `smart_add` leaves: `calloc` and the flag.
unfoldable pub smart_add : Star
smart_add = record { x = 0; y = 0; id = 0; name = none; intimer = none; defaultname = true }

-- `start_default_name_get`: the texts are shorter than the buffer of 100 bytes.
unfoldable pub start_default_name_get : ℕ → List ℕ
unfolding decimal
start_default_name_get id =
    if id == minus_one
    then b'P' ∷ b'l' ∷ b'a' ∷ b'n' ∷ b'e' ∷ b't' ∷ b' ' ∷ b'X' ∷ []
    else b'S' ∷ b't' ∷ b'a' ∷ b'r' ∷ b' ' ∷ b'#' ∷ decimal id

-- The widget, and the value returned, where -1 is `none`.
unfoldable gui_star_name_set : Widget → Option (List ℕ) → Widget × Option ℕ
gui_star_name_set no_star name = (no_star, none)
gui_star_name_set (star s) name = (star (record s { name = name; defaultname = false }), some 0)

unfoldable gui_star_name_get : Widget → Option (List ℕ)
gui_star_name_get no_star = none
gui_star_name_get (star s) = s.name

-- What `gui_star_id_set` leaves of a star.
unfoldable pub with_id : ℕ → Star → Star
unfolding start_default_name_get
with_id id s =
    if id == s.id
    then s
    else if s.defaultname
    then record s { id = id; name = some (start_default_name_get id) }
    else record s { id = id }

unfoldable pub gui_star_id_set : Widget → ℕ → Widget × Option ℕ
unfolding with_id
gui_star_id_set no_star id = (no_star, none)
gui_star_id_set (star s) id = (star (with_id id s), some 0)

unfoldable gui_star_id_get : Widget → ℕ
gui_star_id_get no_star = minus_one
gui_star_id_get (star s) = s.id

-- For an instance of Evas that is not NULL.
unfoldable pub gui_star_add : ℕ → Option (List ℕ) → Widget
unfolding smart_add gui_star_name_set gui_star_id_set
gui_star_add id none = (gui_star_id_set (star smart_add) id).0
gui_star_add id (some name) =
    (gui_star_id_set (gui_star_name_set (star smart_add) (some name)).0 id).0

unfoldable smart_move : ℕ → ℕ → Star → Star
smart_move x y s = if s.x == x && s.y == y then s else record s { x = x; y = y }

-- `ecore_timer_del`, which is undefined for a timer that is not there.
unfoldable pub ecore_timer_del : ℕ → List ℕ → Run (List ℕ)
ecore_timer_del timer [] = undefined
ecore_timer_del timer (t ∷ live) =
    let rest = ecore_timer_del timer live in
    if t == timer then ok live else (rest >>= λ live'. ok (t ∷ live'))

-- `timer` is what `ecore_timer_add` returns, and `live` are the timers that there are. The event
-- "GUIObjectHover" is sent with the number of the star.
unfoldable pub smart_mouse_in : ℕ → Star → List ℕ → Run (Star × List ℕ)
unfolding ecore_timer_del
smart_mouse_in timer s live = elim s.intimer [
  | none ↦ ok (record s { intimer = some timer }, timer ∷ live)
  | some old ↦
      ecore_timer_del old live >>= λ live'. ok (record s { intimer = some timer }, timer ∷ live')
]

unfoldable pub smart_mouse_out : Star → List ℕ → Run (Star × List ℕ)
unfolding ecore_timer_del
smart_mouse_out s live = elim s.intimer [
  | none ↦ ok (s, live)
  | some old ↦ ecore_timer_del old live >>= λ live'. ok (record s { intimer = none }, live')
]

-- `smart_del`, which deletes the parts for Evas and no timer: the timers that are left.
unfoldable pub smart_del : Star → List ℕ → List ℕ
smart_del s live = live

-- The call for a timer that has run out, which is deleted because the call returns 0.
unfoldable pub smart_mouse_hover : ℕ → Star → List ℕ → Run (Star × List ℕ)
unfolding ecore_timer_del
smart_mouse_hover timer s live =
    ecore_timer_del timer live >>= λ live'. ok (record s { intimer = none }, live')
