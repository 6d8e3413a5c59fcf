-- ===== src/Players/Smith/Fleet.antt =====
-- ai_smith.c: what Smith does with a fleet that has no orders, and when a planet is colonised.
use galaxie.Prelude.{
  ℕ, Bool, true, false, ◌&&◌, Option, none, some, List, [], ◌∷◌, ◌==◌, if◌then◌else◌, bytes_eq,
}
use galaxie.Run.{Run, ok, aborted, ◌>>=◌}
use galaxie.Wire.{minus_one}
use galaxie.Parse.Fields.{FleetShip}
use galaxie.Server.{Server}
use galaxie.Orders.{OrderDesc}
use galaxie.Orders.Insert.{tpe_orders_object_move_object, tpe_orders_object_colonise}
use galaxie.Orders.Clear.{tpe_orders_object_clear}
use galaxie.Objects.{Object, Objects, EinaHash, objtype_planet, null, tpe_obj_obj_get_by_id, stored}
use galaxie.Ships.{Design, tpe_ship_design_name_get}
use galaxie.Players.{tpe_util_dist_calc2, send_on}
use galaxie.Players.Closest.{search_loop, no_best, ai_util_planet_closest_uncolonised}
use galaxie.Players.Smith.Build.{frigate_name}

-- Whether the loop over the ships breaks: a design that is not known is passed over.
unfoldable pub has_frigate : List Design → List FleetShip → Bool
unfolding tpe_ship_design_name_get
has_frigate designs [] = false
has_frigate designs (s ∷ ships) =
    let rest = has_frigate designs ships in
    elim (tpe_ship_design_name_get designs s.design) as (λ _. Bool) [
      | none ↦ rest
      | some name ↦ if bytes_eq name frigate_name then true else rest
    ]

-- `tpe_obj_obj_list` of objects.c, which gives no list whatever the objects are.
unfoldable pub tpe_obj_obj_list : {H : Type 0} → Objects H → Option (List ℕ)
tpe_obj_obj_list obj = none

-- The call of tpe_orders_object_clear: the object and the server after it.
unfoldable pub cleared : {C : Type 0} → Object → Server C → Run (Object × Server C)
unfolding tpe_orders_object_clear
cleared o server =
    if o.norders == 0
    then ok (o, server)
    else if o.server
    then (tpe_orders_object_clear server o.oid o.norders >>= λ c.
        ok (record o { norders = c.0; orders = null }, c.1))
    else aborted

module _ {C H : Type 0} (hash : EinaHash H Object) (malloc : ℕ → List ℕ) (hypot : ℕ → ℕ → ℕ → ℕ)
    (ods : List OrderDesc) where
  -- Two orders at the end of those of the fleet, and the mark on the planet: the fleet `mark`.
  unfoldable pub send_to : ℕ → Objects H → Server C → Object → Object → Run (Objects H × Server C)
  unfolding tpe_orders_object_move_object tpe_orders_object_colonise send_on
  send_to mark obj server fleet dest =
      tpe_orders_object_move_object malloc ods server fleet.oid minus_one dest.pos >>= λ moved.
      send_on fleet.server server moved >>= λ server'.
      tpe_orders_object_colonise malloc ods server' fleet.oid minus_one dest.oid >>= λ settled.
      send_on fleet.server server' settled >>= λ server''.
      ok (stored hash obj dest.oid (record dest { ai = some mark }), server'')

  -- `elements` gives the numbers that a walk through a list by the ecore library finds.
  unfoldable pub smith_order_fleet :
      (Option (List ℕ) → List ℕ)
      → List Design
      → Objects H
      → Server C
      → Object
      → Run (Objects H × Server C)
  unfolding has_frigate tpe_obj_obj_get_by_id tpe_obj_obj_list tpe_orders_object_colonise send_on
      search_loop tpe_util_dist_calc2 send_to
  smith_order_fleet elements designs obj server o = elim o.fleet [
    | none ↦ ok (obj, server)
    | some ships ↦
        if has_frigate designs ships
        then (elim (tpe_obj_obj_get_by_id hash obj o.parent) as (λ _. Run (Objects H × Server C)) [
          | none ↦ ok (obj, server)
          | some parent ↦
              if parent.type == objtype_planet && parent.owner == minus_one
              then (tpe_orders_object_colonise malloc ods server o.oid minus_one parent.oid
                  >>= λ settled. send_on o.server server settled >>= λ server'. ok (obj, server'))
              else (search_loop (tpe_obj_obj_get_by_id hash obj)
                    (λ p. tpe_util_dist_calc2 hypot p o) (elements (tpe_obj_obj_list obj)) no_best
                  >>= λ best. elim best.dest as (λ _. Run (Objects H × Server C)) [
                    | none ↦ ok (obj, server)
                    | some dest ↦ send_to o.oid obj server o dest
                  ])
        ])
        else ok (obj, server)
  ]

  -- The orders of `o` are cleared, not those of the fleet.
  unfoldable pub smith_planet_colonised : Objects H → Server C → Object → Run (Objects H × Server C)
  unfolding tpe_obj_obj_get_by_id ai_util_planet_closest_uncolonised tpe_util_dist_calc2 cleared
      send_to
  smith_planet_colonised obj server o = elim o.ai [
    | none ↦ ok (obj, server)
    | some oid ↦ elim (tpe_obj_obj_get_by_id hash obj oid) [
      | none ↦ ok (stored hash obj o.oid (record o { ai = none }), server)
      | some colfleet ↦
          ai_util_planet_closest_uncolonised (tpe_obj_obj_get_by_id hash obj)
            (λ p. tpe_util_dist_calc2 hypot p colfleet)
          >>= λ found. elim found as (λ _. Run (Objects H × Server C)) [
            | none ↦ ok (obj, server)
            | some dest ↦ cleared o server >>= λ c.
                send_to o.oid (stored hash obj o.oid c.0) c.1 colfleet dest
          ]
    ]
  ]
