-- ===== src/Objects.antt =====
-- objects.c and objects.h: the objects of the game by their number. `eina_hash` is a parameter: a
-- record of its operations, with what they do.
-- Where the code changes an object through a pointer, the table gets the changed object under the
-- number that the pointer was found or added with.
pub mod Check
pub mod Family
pub mod Receive
pub mod Children
mod Tests
use Prim.Native.String.{String}
use galaxie.Prelude.{
  ℕ, zero, suc, ◌≡◌, Bool, true, false, Option, none, some, List, [], ◌∷◌, ◌==◌, if◌then◌else◌,
}
use galaxie.Run.{Run, ok, aborted, undefined, stuck, ◌>>=◌}
use galaxie.Wire.{minus_one}
use galaxie.Parse.Fields.{FleetShip, PlanetResource}
use galaxie.Orders.Args.{Coord, Order}

-- A hash table of Eina with keys of 32 bits: what is found under a key is what was set there last.
pub record EinaHash (H A : Type 0) : Type 0 where
  pub find : H → ℕ → Option A
  pub set : H → ℕ → A → H
  pub find-set :
      (h : H) (k : ℕ) (a : A) (j : ℕ) → find (set h k a) j ≡ (if j == k then some a else find h j)

-- The pointer `orders`: NULL, an array, or an array that has been freed.
pub data Slots : Type 0 where
  null : Slots
  array : List (Option Order) → Slots
  freed : Slots

-- `enum objtype`
abbrev pub objtype_planet : ℕ
objtype_planet = 3

abbrev pub objtype_fleet : ℕ
objtype_fleet = 4

-- `struct object`, less what only the screen uses, its size and its velocity. `server` says that the
-- pointer is set; `ai` is the fleet of `struct ai_obj`, and `fleet` and `planet` are the arrays of
-- their structs, and `children` is the array of the `nchildren` children, a number that is not
-- negative here. Numbers are bit patterns.
pub record Object : Type 0 where
  pub server : Bool
  pub oid : ℕ
  pub type : ℕ
  pub name : Option (List ℕ)
  pub description : Option (List ℕ)
  pub owner : ℕ
  pub pos : Coord
  pub parent : ℕ
  pub children : List ℕ
  pub nordertypes : ℕ
  pub norders : ℕ
  pub orders : Slots
  pub updated : ℕ
  pub fleet : Option (List FleetShip)
  pub planet : Option (List PlanetResource)
  pub ai : Option ℕ
  pub ref : ℕ
  pub isnew : Bool

-- `struct tpe_obj`; `home` is the number of the object.
pub record Objects (H : Type 0) : Type 0 where
  pub objhash : H
  pub check : ℕ
  pub home : Option ℕ

-- An object as `calloc` leaves it, with its number.
abbrev pub empty_object : ℕ → Object
empty_object oid = record {
  server = false;
  oid = oid;
  type = 0;
  name = none;
  description = none;
  owner = 0;
  pos = record { x = 0; y = 0; z = 0 };
  parent = 0;
  children = [];
  nordertypes = 0;
  norders = 0;
  orders = null;
  updated = 0;
  fleet = none;
  planet = none;
  ai = none;
  ref = 0;
  isnew = false;
}

module _ {H : Type 0} (hash : EinaHash H Object) where
  unfoldable pub tpe_obj_obj_get_by_id : Objects H → ℕ → Option Object
  tpe_obj_obj_get_by_id obj oid = if oid == minus_one then none else hash.find obj.objhash oid

  abbrev pub stored : Objects H → ℕ → Object → Objects H
  stored obj oid o = record obj { objhash = hash.set obj.objhash oid o }

  unfoldable pub tpe_obj_obj_add : Objects H → ℕ → Run (Objects H × Object)
  tpe_obj_obj_add obj oid =
      if oid == minus_one then aborted else ok (stored obj oid (empty_object oid), empty_object oid)

  unfoldable pub tpe_obj_object_updated : Objects H → ℕ → Objects H × ℕ
  unfolding tpe_obj_obj_get_by_id
  tpe_obj_object_updated obj oid = elim (tpe_obj_obj_get_by_id obj oid) [
    | none ↦ (obj, 0)
    | some o ↦
        ((if obj.check == 0 then obj else stored obj oid (record o { ref = obj.check })), o.updated)
  ]

-- `rand k` is what the k-th call of `rand` from here on returns, as an int.
unfoldable pub tpe_obj_list_begin : {H : Type 0} → (ℕ → ℕ) → ℕ → ℕ → Objects H → Run (Objects H)
tpe_obj_list_begin rand zero k obj = stuck
tpe_obj_list_begin rand (suc fuel) k obj =
    let rest = tpe_obj_list_begin rand fuel (suc k) obj in
    if rand k == 0 then rest else ok (record obj { check = rand k })

abbrev has_resource : ℕ → List PlanetResource → Bool
has_resource rid [] = false
has_resource rid (r ∷ rs) = let rest = has_resource rid rs in if r.rid == rid then true else rest

-- `hptype` is what the search for the resource "Home Planet" returns.
unfoldable pub tpe_obj_home_check : {H : Type 0} → ℕ → Objects H → Object → Run (Objects H)
tpe_obj_home_check hptype obj o =
    if o.type == objtype_planet
    then (if hptype == minus_one then ok obj else elim o.planet [
      | none ↦ undefined
      | some rs ↦ ok (if has_resource hptype rs then record obj { home = some o.oid } else obj)
    ])
    else aborted

unfoldable tpe_obj_home_get : {H : Type 0} → EinaHash H Object → Objects H → Option Object
unfolding tpe_obj_obj_get_by_id
tpe_obj_home_get hash obj = elim obj.home [
  | none ↦ none
  | some oid ↦ tpe_obj_obj_get_by_id hash obj oid
]
