-- ===== src/Players/Closest.antt =====
-- The search for a planet to colonise: ai_util.c, and the same loop in ai_smith.c.
pub mod Laws
use galaxie.Prelude.{
  ℕ, Bool, true, false, ◌&&◌, not, Option, none, some, List, [], ◌∷◌, ◌==◌, if◌then◌else◌, ltb,
}
use galaxie.Run.{Run, ok, undefined, ◌>>=◌}
use galaxie.Wire.{is_negative, uint64_max}
use galaxie.Objects.{Object, objtype_planet}

-- `dest` and `destdist`.
pub record Best : Type 0 where
  pub dest : Option Object
  pub destdist : ℕ

abbrev pub is_none {ℓ} : {A : Type ℓ} → Option A → Bool
is_none none = true
is_none (some _) = false

-- One round of the loop, for an object at that distance.
unfoldable pub consider : (Object → ℕ) → Object → Best → Best
consider dist cur best =
    if not (cur.type == objtype_planet)
    then best
    else if is_none best.dest && is_none cur.ai
    then record { dest = some cur; destdist = dist cur }
    else if not (is_none cur.ai)
    then best
    else if not (is_negative cur.owner)
    then best
    else if ltb (dist cur) best.destdist
    then record { dest = some cur; destdist = dist cur }
    else best

-- The loop over the numbers that the walk through the list gives. An object that is not known is
-- read through a NULL pointer.
unfoldable pub search_loop : (ℕ → Option Object) → (Object → ℕ) → List ℕ → Best → Run Best
unfolding consider
search_loop find dist [] best = ok best
search_loop find dist (oid ∷ oids) best = elim (find oid) [
  | none ↦ undefined
  | some cur ↦ search_loop find dist oids (consider dist cur best)
]

abbrev pub no_best : Best
no_best = record { dest = none; destdist = uint64_max }

-- EINA_LIST_FOREACH is given the store of the objects, and reads this struct as a node of a list.
unfoldable pub ai_util_planet_closest_uncolonised :
    (ℕ → Option Object) → (Object → ℕ) → Run (Option Object)
ai_util_planet_closest_uncolonised find dist = undefined
