-- ===== src/Players/Jones/Laws.antt =====
-- What ai_jones.c does to its server, and with which ships.
use galaxie.Prelude.{
  ℕ, ◌≡◌, refl, arith, true, ◌||◌, Option, none, some, List, [], ◌∷◌, ◌++◌, ◌⊎◌, length, All,
  bytes_eq, Bool-cases, inl, inr,
}
use galaxie.Run.{ok, aborted, undefined}
use galaxie.Parse.Fields.{ArgType6, FleetShip}
use galaxie.Server.{Server}
use galaxie.Server.Format.Passes.{format_body_lem}
use galaxie.Orders.{OrderDesc, tpe_order_get_type_by_name}
use galaxie.Objects.{Object}
use galaxie.Ships.{Design, tpe_ship_design_name_get}
use galaxie.Players.Smith.Build.{find_option, frigate_name}
use galaxie.Players.Smith.Requests.{probe_wire}
use galaxie.Players.Jones.{
  ai_jones_init, build_name, battleship_name, last_option, last_design, jones_order_fleet,
  jones_order_planet,
}

-- An idle planet ends the program when Jones plays and the server has described "BuildFleet": the
-- player that ai_jones_init makes has no server, and server_send asserts that there is one.
order_planet-aborted :
    {C : Type 0} (malloc : ℕ → List ℕ)
    → ((n : ℕ) → length (malloc n) ≡ n)
    → (ods : List OrderDesc) (cb : C) (server : Server C) (planet : Object) (type : ℕ)
    → tpe_order_get_type_by_name ods build_name ≡ some type
    → jones_order_planet malloc ods cb ai_jones_init server planet ≡ aborted
unfolding jones_order_planet ai_jones_init
order_planet-aborted malloc sized ods cb server planet type known =
    rw (jones_order_planet, known, format_body_lem malloc sized _ _ tt, probe_wire _ _ _) refl

-- A design whose name is known.
abbrev IsKnown : List Design → FleetShip → Type 0
IsKnown designs s = (name : List ℕ) × (tpe_ship_design_name_get designs s.design ≡ some name)

last_design-IsKnown :
    (designs : List Design) (ships : List FleetShip) (kept : List ℕ)
    → All (IsKnown designs) ships
    → (name : List ℕ) × (last_design designs ships (some (some kept)) ≡ some (some name))
unfolding last_design
last_design-IsKnown designs [] kept h = (kept, refl)
last_design-IsKnown designs (s ∷ ships) kept ((name, e), h) =
    elim (Bool-cases (bytes_eq name frigate_name || bytes_eq name battleship_name)) [
      | inl t ↦ (name, rw (last_design, e, t) refl)
      | inr t ↦
          let (last, l) = last_design-IsKnown designs ships name h in
          (last, rw (last_design, e, t) l)
    ]

last_design_unknown :
    (designs : List Design) (ships : List FleetShip) (kept : Option (Option (List ℕ)))
    → All (λ s. tpe_ship_design_name_get designs s.design ≡ none) ships
    → (last_design designs ships kept ≡ kept) ⊎ (last_design designs ships kept ≡ some none)
unfolding last_design
last_design_unknown designs [] kept h = inl refl
last_design_unknown designs (s ∷ ships) kept (e, h) =
    elim (last_design_unknown designs ships (some none) h) [
      | inl p ↦ inr (rw (last_design, e) p)
      | inr p ↦ inr (rw (last_design, e) p)
    ]

-- An idle fleet with at least one ship, all of designs that are known, is dealt with; one with no
-- ship, or with ships of designs that are not known only, is undefined behaviour: the comparison
-- after the loop reads a name that is NULL or was never set.
order_fleet_known :
    (designs : List Design) (o : Object) (s : FleetShip) (ships : List FleetShip)
    → o.fleet ≡ some (s ∷ ships)
    → All (IsKnown designs) (s ∷ ships)
    → jones_order_fleet designs o ≡ ok tt
unfolding jones_order_fleet last_design
order_fleet_known designs o s ships e ((name, k), h) =
    elim (Bool-cases (bytes_eq name frigate_name || bytes_eq name battleship_name)) [
      | inl t ↦ rw (jones_order_fleet, e, k, t) refl
      | inr t ↦
          let (last, l) = last_design-IsKnown designs ships name h in
          rw (jones_order_fleet, e, k, t, l) refl
    ]

order_fleet_unknown :
    (designs : List Design) (o : Object) (ships : List FleetShip)
    → o.fleet ≡ some ships
    → All (λ s. tpe_ship_design_name_get designs s.design ≡ none) ships
    → jones_order_fleet designs o ≡ undefined
unfolding jones_order_fleet
order_fleet_unknown designs o ships e h = elim (last_design_unknown designs ships none h) [
  | inl p ↦ rw (jones_order_fleet, e, p) refl
  | inr p ↦ rw (jones_order_fleet, e, p) refl
]

last_option-none :
    (name : List ℕ) (os : List ArgType6) (kept : ℕ)
    → find_option name os ≡ none
    → last_option name os kept ≡ kept
unfolding last_option find_option
last_option-none name [] kept h = refl
last_option-none name (o ∷ os) kept h = elim (Bool-cases (bytes_eq o.name name)) [
  | inl t ↦ ground (arith, h, t)
  | inr t ↦ rw t (last_option-none name os kept (rw (find_option, t) at h))
]

-- Of several options of a name Jones takes the last, where the search of Smith takes the first.
last_option_lem :
    (name : List ℕ) (front back : List ArgType6) (o : ArgType6) (kept : ℕ)
    → bytes_eq o.name name ≡ true
    → find_option name back ≡ none
    → last_option name (front ++ (o ∷ back)) kept ≡ o.id
unfolding last_option
last_option_lem name [] back o kept e h = rw (last_option, e) (last_option-none name back o.id h)
last_option_lem name (f ∷ front) back o kept e h = last_option_lem name front back o _ e h
