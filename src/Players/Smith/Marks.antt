-- ===== src/Players/Smith/Marks.antt =====
-- What ai_smith.c does to the objects.
use galaxie.Prelude.{
  ℕ, ◌≡◌, refl, false, ◌&&◌, Option, none, some, List, [], ◌==◌, Bool-cases, Option-cases, inl, inr,
}
use galaxie.Run.{ok}
use galaxie.Wire.{minus_one}
use galaxie.Server.{Server}
use galaxie.Orders.{OrderDesc}
use galaxie.Objects.{Object, Objects, EinaHash, objtype_planet, tpe_obj_obj_get_by_id}
use galaxie.Ships.{Design}
use galaxie.Players.Closest.{search_loop}
use galaxie.Players.Smith.Fleet.{has_frigate, tpe_obj_obj_list, smith_order_fleet}

module _ {C H : Type 0} (hash : EinaHash H Object) (malloc : ℕ → List ℕ) (hypot : ℕ → ℕ → ℕ → ℕ)
    (ods : List OrderDesc) where
  -- A fleet that is not at a free planet gets no orders from Smith, whatever its ships: the list of
  -- all objects that it searches is the NULL that tpe_obj_obj_list returns.
  order_fleet-stays :
      (elements : Option (List ℕ) → List ℕ) (designs : List Design) (obj : Objects H)
      (server : Server C) (o parent : Object)
      → elements none ≡ []
      → tpe_obj_obj_get_by_id hash obj o.parent ≡ some parent
      → (parent.type == objtype_planet && parent.owner == minus_one) ≡ false
      → smith_order_fleet hash malloc hypot ods elements designs obj server o ≡ ok (obj, server)
  unfolding smith_order_fleet tpe_obj_obj_list search_loop
  order_fleet-stays elements designs obj server o parent empty found taken =
      elim (Option-cases o.fleet) [
        | inl e ↦ rw (smith_order_fleet, e) refl
        | inr (ships, e) ↦ elim (Bool-cases (has_frigate designs ships)) [
          | inl f ↦ rw (smith_order_fleet, e, f, found, taken, empty) refl
          | inr f ↦ rw (smith_order_fleet, e, f) refl
        ]
      ]
