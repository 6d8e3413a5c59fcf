-- ===== src/Gui/Colours.antt =====
-- `star_update` of tpe_gui.c: whose planets a star has.
use galaxie.Prelude.{
  ℕ, ◌+◌, Bool, true, false, ◌&&◌, Option, none, some, List, [], ◌∷◌, ◌==◌, if◌then◌else◌, ltb,
}
use galaxie.Wire.{minus_one}
use galaxie.Objects.{Object, objtype_planet}
use galaxie.Gui.Visible.{objtype_system}

-- The texts of `state`.
pub data Colour : Type 0 where
  contested enemy shared friendly own : Colour

-- `nowned` and `nother`.
pub record Owners : Type 0 where
  pub owned : ℕ
  pub other : ℕ

unfoldable count_owner : ℕ → Object → Owners → Owners
count_owner player child n =
    if child.type == objtype_planet
    then if child.owner == player
      then record n { owned = n.owned + 1 }
      else if child.owner == 0
      then n
      else record n { other = n.other + 1 }
    else n

-- The loop over the children; one that is not known is passed over.
unfoldable pub count_owners : (ℕ → Option Object) → ℕ → List ℕ → Owners → Owners
unfolding count_owner
count_owners find player [] n = n
count_owners find player (oid ∷ oids) n =
    count_owners find player oids
      (elim (find oid) as (λ _. Owners) [ none ↦ n | some child ↦ count_owner player child n ])

-- `nfriendly` is never counted up.
unfoldable pub colour_of : ℕ → Owners → Option Colour
colour_of nfriendly n =
    if ltb 0 n.owned && ltb 0 n.other
    then some contested
    else if ltb 0 n.other
    then some enemy
    else if ltb 0 n.owned && ltb 0 nfriendly
    then some shared
    else if ltb 0 nfriendly
    then some friendly
    else if ltb 0 n.owned
    then some own
    else none

-- The star that an update is about: that of a planet, or the object itself. `gui` says which objects
-- are on the map.
unfoldable star_of : (ℕ → Option Object) → (ℕ → Bool) → Object → Option Object
star_of find gui o =
    if o.type == objtype_planet
    then if o.parent == minus_one then none else (elim (find o.parent) as (λ _. Option Object) [
      | none ↦ none
      | some parent ↦
          if parent.type == objtype_system
          then if gui parent.oid then some parent else none
          else none
    ])
    else if o.type == objtype_system
    then if gui o.oid then some o else none
    else none

abbrev is_colour : Colour → Option Colour → Bool
is_colour contested (some contested) = true
is_colour enemy (some enemy) = true
is_colour shared (some shared) = true
is_colour friendly (some friendly) = true
is_colour own (some own) = true
is_colour _ _ = false

-- The star and the colour that it is given, if it is another than the one that `colour` says it has.
unfoldable star_update :
    (ℕ → Option Object) → (ℕ → Bool) → (ℕ → Option Colour) → ℕ → Object → Option (ℕ × Colour)
unfolding star_of count_owners colour_of
star_update find gui colour player o = elim (star_of find gui o) as (λ _. Option (ℕ × Colour)) [
  | none ↦ none
  | some star ↦
      elim (colour_of 0 (count_owners find player star.children (record { owned = 0; other = 0 })))
        as (λ _. Option (ℕ × Colour)) [
          | none ↦ none
          | some c ↦ if is_colour c (colour star.oid) then none else some (star.oid, c)
        ]
]
