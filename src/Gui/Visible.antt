-- ===== src/Gui/Visible.antt =====
-- tpe_gui.c: which objects are on the map. An object is on the list of visible objects, and has a
-- `struct gui_obj`, or neither.
use galaxie.Prelude.{
  ℕ, ◌+◌, ◌≡◌, arith, Bool, true, false, ◌||◌, Option, none, some, List, [], ◌∷◌, ◌++◌, ◌==◌,
  if◌then◌else◌, Bool-cases, inl, inr,
}
use galaxie.Objects.{Object, objtype_planet, objtype_fleet}

-- Which objects have their `gui` set, and the list.
pub record Screen : Type 0 where
  pub gui : ℕ → Bool
  pub visible : List ℕ

abbrev objtype_universe : ℕ
objtype_universe = 0

abbrev objtype_galaxy : ℕ
objtype_galaxy = 1

abbrev pub objtype_system : ℕ
objtype_system = 2

abbrev set_gui : ℕ → Bool → (ℕ → Bool) → ℕ → Bool
set_gui oid on gui k = if k == oid then on else gui k

-- `ecore_list_goto` and `ecore_list_remove`: the first of that number.
unfoldable remove_first : ℕ → List ℕ → List ℕ
remove_first oid [] = []
remove_first oid (v ∷ visible) =
    let rest = remove_first oid visible in if v == oid then visible else v ∷ rest

unfoldable appear : ℕ → Screen → Screen
appear oid s =
    if s.gui oid
    then s
    else record { gui = set_gui oid true s.gui; visible = s.visible ++ (oid ∷ []) }

unfoldable disappear : ℕ → Screen → Screen
unfolding remove_first
disappear oid s =
    if s.gui oid
    then record { gui = set_gui oid false s.gui; visible = remove_first oid s.visible }
    else s

abbrev at_place : Option Object → Bool
at_place none = false
at_place (some parent) = parent.type == objtype_system || parent.type == objtype_planet

-- `find` is the search for an object. What `star_update` does is in Colours.
unfoldable pub gui_object_update : (ℕ → Option Object) → Object → Screen → Screen
unfolding appear disappear
gui_object_update find o s =
    if o.type == objtype_universe || o.type == objtype_galaxy
    then s
    else if o.type == objtype_system
    then appear o.oid s
    else if o.type == objtype_fleet
    then if at_place (find o.parent) then disappear o.oid s else appear o.oid s
    else s

-- The event that it waits for is sent by objects.c between #if 0 and #endif only.
unfoldable pub gui_object_delete : Object → Screen → Screen
unfolding disappear
gui_object_delete o s = disappear o.oid s

-- What the client hears of objects.
pub data News : Type 0 where
  update : (ℕ → Option Object) → Object → News
  delete : Object → News

abbrev hear : News → Screen → Screen
hear (update find o) s = gui_object_update find o s
hear (delete o) s = gui_object_delete o s

abbrev pub hear_all : List News → Screen → Screen
hear_all [] s = s
hear_all (n ∷ news) s = hear_all news (hear n s)

abbrev pub count : ℕ → List ℕ → ℕ
count oid [] = 0
count oid (v ∷ visible) = (if v == oid then 1 else 0) + count oid visible

-- An object is on the list once if its `gui` is set, and not at all else.
abbrev pub IsExact : Screen → Type 0
IsExact s = (oid : ℕ) → count oid s.visible ≡ (if s.gui oid then 1 else 0)

count_snoc :
    (oid v : ℕ) (visible : List ℕ)
    → count oid (visible ++ (v ∷ [])) ≡ count oid visible + (if v == oid then 1 else 0)
count_snoc oid v [] = omega arith
count_snoc oid v (w ∷ visible) = omega (arith, count_snoc oid v visible)

count_remove :
    (oid v : ℕ) (visible : List ℕ)
    → count v visible ≡ 1
    → count oid (remove_first v visible) ≡ (if v == oid then 0 else count oid visible)
unfolding remove_first
count_remove oid v [] h = absurd (omega arith)
count_remove oid v (w ∷ visible) h = elim (Bool-cases (w == v)) [
  | inl t ↦ ground (arith, t, h)
  | inr t ↦ ground (arith, t, h, count_remove oid v visible (ground (arith, t, h)))
]

appear-IsExact : (v : ℕ) (s : Screen) → IsExact s → IsExact (appear v s)
unfolding appear
appear-IsExact v s h oid = ground (arith, h oid, h v, count_snoc oid v s.visible)

disappear-IsExact : (v : ℕ) (s : Screen) → IsExact s → IsExact (disappear v s)
unfolding disappear
disappear-IsExact v s h oid = ground (arith, h oid, h v, count_remove oid v s.visible)

update-IsExact :
    (find : ℕ → Option Object) (o : Object) (s : Screen)
    → IsExact s
    → IsExact (gui_object_update find o s)
unfolding gui_object_update
update-IsExact find o s h =
    elim (Bool-cases (o.type == objtype_universe || o.type == objtype_galaxy)) [
      | inl a ↦ rw a h
      | inr a ↦ elim (Bool-cases (o.type == objtype_system)) [
        | inl b ↦ rw (a, b) (appear-IsExact o.oid s h)
        | inr b ↦ elim (Bool-cases (o.type == objtype_fleet)) [
          | inr c ↦ rw (a, b, c) h
          | inl c ↦ elim (Bool-cases (at_place (find o.parent))) [
            | inl d ↦ rw (a, b, c, d) (disappear-IsExact o.oid s h)
            | inr d ↦ rw (a, b, c, d) (appear-IsExact o.oid s h)
          ]
        ]
      ]
    ]

hear-IsExact : (n : News) (s : Screen) → IsExact s → IsExact (hear n s)
unfolding gui_object_delete
hear-IsExact (update find o) s h = update-IsExact find o s h
hear-IsExact (delete o) s h = disappear-IsExact o.oid s h

-- Whatever the client hears of objects, in any order, from a list of visible objects that has
-- each object with its data of the map exactly once and no other: the list stays so, and the map
-- is drawn through no NULL pointer.
pub hear_all-IsExact : (news : List News) (s : Screen) → IsExact s → IsExact (hear_all news s)
hear_all-IsExact [] s h = h
hear_all-IsExact (n ∷ news) s h = hear_all-IsExact news (hear n s) (hear-IsExact n s h)
