-- ===== src/Gui/Map.antt =====
-- tpe_gui.c: the map, its keys and its window.
use text.Mathlib.Text.{◌==◌ as str_eq}
use Prim.Native.String.{String}
use galaxie.Prelude.{
  ℕ, ◌+◌, ◌-◌, ◌*◌, ◌/◌, ◌%◌, ◌^◌, ◌≤◌, ◌≡◌, refl, arith, Bool, false, not, List, [], ◌∷◌,
  if◌then◌else◌, ltb, ◌==◌,
}
use galaxie.Run.{Run, ok, undefined, ◌>>=◌}
use galaxie.Wire.{is_negative}
use galaxie.Orders.Args.{Coord}

-- `map` of `struct gui`, and `textvisible`. Ints are bit patterns.
pub record MapView : Type 0 where
  pub zoom : ℕ
  pub top : ℕ
  pub left : ℕ
  pub w : ℕ
  pub h : ℕ
  pub textvisible : Bool

abbrev moved_by : ℕ → ℕ → ℕ
moved_by n d = (n + d) % 2 ^ 32

abbrev moved_back : ℕ → ℕ → ℕ
moved_back n d = (n + 2 ^ 32 - d) % 2 ^ 32

-- What `map_key_down` leaves of the map; the keys that only print or draw leave it.
unfoldable map_key_down : String → MapView → MapView
map_key_down key v =
    if str_eq key "equal"
    then if ltb 4 v.zoom then record v { zoom = v.zoom / 2 } else v
    else if str_eq key "minus"
    then if ltb v.zoom (2 ^ 60) then record v { zoom = v.zoom * 2 % 2 ^ 64 } else v
    else if str_eq key "Left"
    then record v { left = moved_by v.left 100 }
    else if str_eq key "Right"
    then record v { left = moved_back v.left 100 }
    else if str_eq key "Up"
    then record v { top = moved_by v.top 100 }
    else if str_eq key "Down"
    then record v { top = moved_back v.top 100 }
    else if str_eq key "F10"
    then record v { textvisible = not v.textvisible }
    else v

-- `d / 2` for an int, which drops the fraction.
unfoldable halved : ℕ → ℕ
halved d = if is_negative d then (2 ^ 32 - (2 ^ 32 - d) / 2) % 2 ^ 32 else d / 2

unfoldable window_resize : ℕ → ℕ → MapView → MapView
unfolding halved
window_resize neww newh v = record v {
  left = moved_by v.left (halved (moved_back neww v.w));
  top = moved_by v.top (halved (moved_back newh v.h));
  w = neww;
  h = newh;
}

-- Where `gui_redraw` moves an object: the coordinates become unsigned before they are divided.
unfoldable screen_pos : MapView → Coord → Run (ℕ × ℕ)
screen_pos v pos =
    if v.zoom == 0
    then undefined
    else ok (moved_by (pos.x / v.zoom) v.left, moved_by ((2 ^ 64 - pos.y) % 2 ^ 64 / v.zoom) v.top)

unfoldable gui_redraw : MapView → List Coord → Run (List (ℕ × ℕ))
unfolding screen_pos
gui_redraw v [] = ok []
gui_redraw v (pos ∷ visible) =
    screen_pos v pos >>= λ p. gui_redraw v visible >>= λ rest. ok (p ∷ rest)

-- What the user does to the window.
pub data Action : Type 0 where
  key : String → Action
  resize : ℕ → ℕ → Action

abbrev act : Action → MapView → MapView
act (key name) v = map_key_down name v
act (resize w h) v = window_resize w h v

abbrev act_all : List Action → MapView → MapView
act_all [] v = v
act_all (a ∷ rest) v = act_all rest (act a v)

-- The zoom is at least 2 and at most 2 ^ 61.
abbrev IsZoomed : MapView → Type 0
IsZoomed v = (2 ≤ v.zoom) × (v.zoom ≤ 2 ^ 61)

map_key_down-IsZoomed : (name : String) (v : MapView) → IsZoomed v → IsZoomed (map_key_down name v)
unfolding map_key_down
map_key_down-IsZoomed name v h = ground arith

act-IsZoomed : (a : Action) (v : MapView) → IsZoomed v → IsZoomed (act a v)
unfolding window_resize
act-IsZoomed (key name) v h = map_key_down-IsZoomed name v h
act-IsZoomed (resize w h) v z = z

act_all-IsZoomed : (actions : List Action) (v : MapView) → IsZoomed v → IsZoomed (act_all actions v)
act_all-IsZoomed [] v h = h
act_all-IsZoomed (a ∷ rest) v h = act_all-IsZoomed rest (act a v) (act-IsZoomed a v h)

redraw_positive :
    (v : MapView) (visible : List Coord)
    → 2 ≤ v.zoom
    → (points : List (ℕ × ℕ)) × (gui_redraw v visible ≡ ok points)
unfolding gui_redraw screen_pos
redraw_positive v [] h = ([], refl)
redraw_positive v (pos ∷ visible) h =
    let (points, e) = redraw_positive v visible h in
    let some_zoom : (v.zoom == 0) ≡ false = ground arith in
    let point : ℕ × ℕ =
      (moved_by (pos.x / v.zoom) v.left, moved_by ((2 ^ 64 - pos.y) % 2 ^ 64 / v.zoom) v.top) in
    (point ∷ points, rw (some_zoom, e) refl)

-- Whatever the user has done to the window with keys and by resizing it, the zoom lies between 2 and
-- 2 ^ 61, and the map can be drawn: no object is placed by a division by 0.
act_all-redraw :
    (actions : List Action) (v : MapView) (visible : List Coord)
    → IsZoomed v
    → IsZoomed (act_all actions v)
      × ((points : List (ℕ × ℕ)) × (gui_redraw (act_all actions v) visible ≡ ok points))
act_all-redraw actions v visible h =
    let z = act_all-IsZoomed actions v h in (z, redraw_positive (act_all actions v) visible z.0)
