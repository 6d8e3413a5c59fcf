-- ===== src/Gui/Summary.antt =====
-- `star_summary` of tpe_gui.c: the text of the popup of a star.
use galaxie.Prelude.{
  ℕ, zero, suc, ◌+◌, ◌-◌, ◌≤◌, ◌<◌, ◌≡◌, refl, sym, ap, ◌∙◌, arith, true, Option, none, some, List,
  [], ◌∷◌, ◌++◌, ◌==◌, if◌then◌else◌, leb, take, length, length-append,
}
use mathlib.Core.List.{append_assoc, append-nil}
use galaxie.Run.{Run, ok, undefined, ◌>>=◌}
use galaxie.Wire.{minus_one}
use galaxie.Decimal.{decimal}
use galaxie.Parse.Fields.{FleetShip}
use galaxie.Objects.{Object, objtype_planet, objtype_fleet}
use galaxie.Ships.{Design, tpe_ship_design_name_get}

-- `<tag>text</tag>`
abbrev tagged : List ℕ → List ℕ → List ℕ
tagged tag text = (b'<' ∷ tag) ++ (b'>' ∷ (text ++ (b'<' ∷ b'/' ∷ (tag ++ (b'>' ∷ [])))))

-- A string for `%s`, which may not be NULL.
unfoldable shown : Option (List ℕ) → Run (List ℕ)
shown none = undefined
shown (some s) = ok s

unfoldable ship_pieces : List Design → List FleetShip → Run (List (List ℕ))
unfolding shown
ship_pieces designs [] = ok []
ship_pieces designs (s ∷ ships) = shown (tpe_ship_design_name_get designs s.design) >>= λ name.
    ship_pieces designs ships >>= λ rest.
    ok (tagged (b's' ∷ b'h' ∷ b'i' ∷ b'p' ∷ []) (decimal s.count ++ (b'x' ∷ name)) ∷ rest)

module _ (find : ℕ → Option Object) (designs : List Design) where
  -- The fleets among some children, with their ships.
  unfoldable fleet_pieces : List ℕ → Run (List (List ℕ))
  unfolding shown ship_pieces
  fleet_pieces [] = ok []
  fleet_pieces (oid ∷ oids) =
      let rest = fleet_pieces oids in
      elim (find oid) as (λ _. Run (List (List ℕ))) [
        | none ↦ rest
        | some child ↦
            if child.type == objtype_fleet
            then (shown child.name >>= λ name. elim child.fleet as (λ _. Run (List (List ℕ))) [
              | none ↦ undefined
              | some ships ↦ ship_pieces designs ships >>= λ of_ships. rest >>= λ others.
                  ok (tagged (b'f' ∷ b'l' ∷ b'e' ∷ b'e' ∷ b't' ∷ []) name ∷ (of_ships ++ others))
            ])
            else rest
      ]

  -- The planets, with the fleets at them.
  unfoldable planet_pieces : List ℕ → Run (List (List ℕ))
  unfolding shown fleet_pieces
  planet_pieces [] = ok []
  planet_pieces (oid ∷ oids) =
      let rest = planet_pieces oids in
      elim (find oid) as (λ _. Run (List (List ℕ))) [
        | none ↦ rest
        | some child ↦
            if child.type == objtype_planet
            then (shown child.name >>= λ name. fleet_pieces child.children >>= λ fleets.
                rest >>= λ others. ok (
                  tagged (b'p' ∷ b'l' ∷ b'a' ∷ b'n' ∷ b'e' ∷ b't' ∷ [])
                    (name ++ (if child.owner == minus_one then [] else b' ' ∷ b'*' ∷ []))
                  ∷ (fleets ++ others)))
            else rest
      ]

  -- What the calls of `snprintf` print, one after the other.
  unfoldable pub pieces : Object → Run (List (List ℕ))
  unfolding shown fleet_pieces planet_pieces
  pieces o = shown o.name >>= λ name. fleet_pieces o.children >>= λ fleets.
      planet_pieces o.children >>= λ planets.
      ok (tagged (b't' ∷ b'i' ∷ b't' ∷ b'l' ∷ b'e' ∷ []) name ∷ (fleets ++ planets))

-- The calls, from a text and `pos` on: `snprintf` returns the length that it would have liked to
-- print, and a `pos` above the size of the buffer makes the next call write behind it.
unfoldable print_all : ℕ → List (List ℕ) → List ℕ → ℕ → Run (List ℕ)
print_all bufsiz [] text pos = ok text
print_all bufsiz (p ∷ ps) text pos =
    let rest = print_all bufsiz ps (take (bufsiz - 1) (text ++ p)) (pos + length p) in
    if leb pos bufsiz then rest else undefined

unfoldable pub star_summary : (ℕ → Option Object) → List Design → ℕ → Object → Run (List ℕ)
unfolding pieces print_all
star_summary find designs bufsiz o = pieces find designs o >>= λ ps. print_all bufsiz ps [] 0

abbrev pub joined : List (List ℕ) → List ℕ
joined [] = []
joined (p ∷ ps) = p ++ joined ps

take_all : (n : ℕ) (s : List ℕ) → length s ≤ n → take n s ≡ s
take_all zero [] h = refl
take_all zero (b ∷ s) h = absurd (omega arith)
take_all (suc n) [] h = refl
take_all (suc n) (b ∷ s) h = ap (λ r. b ∷ r) (take_all n s (omega arith))

print_all_fits :
    (bufsiz : ℕ) (ps : List (List ℕ)) (text : List ℕ) (pos : ℕ)
    → pos ≡ length text
    → length text + length (joined ps) < bufsiz
    → print_all bufsiz ps text pos ≡ ok (text ++ joined ps)
unfolding print_all
print_all_fits bufsiz [] text pos e h = ap ok (sym (append-nil text))
print_all_fits bufsiz (p ∷ ps) text pos e h =
    let l = length-append p (joined ps) in
    let inside : leb pos bufsiz ≡ true = ground (arith, l) in
    rw (inside, take_all (bufsiz - 1) (text ++ p) (omega (arith, length-append text p, l)))
      (print_all_fits bufsiz ps (text ++ p) (pos + length p) (omega (arith, length-append text p))
          (omega (arith, length-append text p, l))
        ∙ ap ok (append_assoc text p (joined ps)))

-- A popup whose text is shorter than the buffer shows all of it.
star_summary_fits :
    (find : ℕ → Option Object) (designs : List Design) (bufsiz : ℕ) (o : Object)
    (ps : List (List ℕ))
    → pieces find designs o ≡ ok ps
    → length (joined ps) < bufsiz
    → star_summary find designs bufsiz o ≡ ok (joined ps)
unfolding star_summary
star_summary_fits find designs bufsiz o ps e h =
    rw e (print_all_fits bufsiz ps [] 0 refl (omega arith))

print_all_overflow :
    (bufsiz : ℕ) (front : List (List ℕ)) (p : List ℕ) (back : List (List ℕ)) (text : List ℕ)
    (pos : ℕ)
    → bufsiz < pos + length (joined front)
    → print_all bufsiz (front ++ (p ∷ back)) text pos ≡ undefined
unfolding print_all
print_all_overflow bufsiz [] p back text pos h = ground arith
print_all_overflow bufsiz (q ∷ front) p back text pos h =
    rw
      (print_all_overflow bufsiz front p back (take (bufsiz - 1) (text ++ q)) (pos + length q)
        (omega (arith, length-append q (joined front))))
      (ground arith)

-- A popup in which something is printed behind more text than the buffer holds is undefined
-- behaviour: that call of snprintf is given a place behind the buffer, and a negative size.
pub star_summary_overflow :
    (find : ℕ → Option Object) (designs : List Design) (bufsiz : ℕ) (o : Object)
    (front : List (List ℕ)) (p : List ℕ) (back : List (List ℕ))
    → pieces find designs o ≡ ok (front ++ (p ∷ back))
    → bufsiz < length (joined front)
    → star_summary find designs bufsiz o ≡ undefined
unfolding star_summary
star_summary_overflow find designs bufsiz o front p back e h =
    rw e (print_all_overflow bufsiz front p back [] 0 (omega arith))
