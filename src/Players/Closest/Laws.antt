-- ===== src/Players/Closest/Laws.antt =====
-- What the search for a planet finds.
use galaxie.Prelude.{
  ℕ, ◌≤◌, ◌≡◌, refl, sym, ◌∙◌, arith, Bool, true, false, Option, none, some, List, [], ◌∷◌, ◌==◌,
  if◌then◌else◌, All, select, map, Bool-cases, Option-cases, inl, inr,
}
use galaxie.Run.{ok}
use galaxie.Wire.{is_negative}
use galaxie.Objects.{Object, objtype_planet}
use galaxie.Players.Closest.{Best, is_none, consider, search_loop, no_best}

-- A planet that no fleet of the player is under way to.
abbrev is_open : Object → Bool
is_open o = if o.type == objtype_planet then is_none o.ai else false

-- One that nobody owns, too.
abbrev is_free : Object → Bool
is_free o = if is_open o then is_negative o.owner else false

-- What the search may answer for these objects: none only if no planet is open; else an open planet
-- that is no farther than any free one.
abbrev Answers : (Object → ℕ) → List Object → Option Object → Type 0
Answers dist objects none = select is_open objects ≡ []
Answers dist objects (some d) =
    (is_open d ≡ true) × All (λ o. dist d ≤ dist o) (select is_free objects)

-- The distance kept is that of the object kept, which is open.
Inv : (Object → ℕ) → Best → Type 0
Inv dist best = (d : Object) → best.dest ≡ some d → (best.destdist ≡ dist d) × (is_open d ≡ true)

-- Something is kept that is at most that far.
abbrev Bounds : Best → ℕ → Type 0
Bounds best n = (is_none best.dest ≡ false) × (best.destdist ≤ n)

module _ (dist : Object → ℕ) (cur : Object) (best : Best) where
  consider-Inv : Inv dist best → Inv dist (consider dist cur best)
  unfolding Inv consider
  consider-Inv inv d h = ground (arith, inv d)

  consider-Bounds : (n : ℕ) → Bounds best n → Bounds (consider dist cur best) n
  unfolding consider
  consider-Bounds n b = ground arith

  consider_open : is_open cur ≡ true → is_none (consider dist cur best).dest ≡ false
  unfolding consider
  consider_open o = ground arith

  consider_free : is_free cur ≡ true → Bounds (consider dist cur best) (dist cur)
  unfolding consider
  consider_free f = ground arith

consider_all : (Object → ℕ) → List Object → Best → Best
consider_all dist [] best = best
consider_all dist (o ∷ os) best = consider_all dist os (consider dist o best)

consider_all-Inv :
    (dist : Object → ℕ) (os : List Object) (best : Best)
    → Inv dist best
    → Inv dist (consider_all dist os best)
unfolding consider_all
consider_all-Inv dist [] best inv = inv
consider_all-Inv dist (o ∷ os) best inv = consider_all-Inv dist os _ (consider-Inv dist o best inv)

consider_all-Bounds :
    (dist : Object → ℕ) (os : List Object) (best : Best) (n : ℕ)
    → Bounds best n
    → Bounds (consider_all dist os best) n
unfolding consider_all
consider_all-Bounds dist [] best n b = b
consider_all-Bounds dist (o ∷ os) best n b =
    consider_all-Bounds dist os _ n (consider-Bounds dist o best n b)

consider_all_kept :
    (dist : Object → ℕ) (os : List Object) (best : Best)
    → is_none best.dest ≡ false
    → is_none (consider_all dist os best).dest ≡ false
consider_all_kept dist os best h =
    (consider_all-Bounds dist os best best.destdist (h, omega arith)).0

consider_all_free :
    (dist : Object → ℕ) (os : List Object) (best : Best)
    → All (λ o. Bounds (consider_all dist os best) (dist o)) (select is_free os)
unfolding consider_all
consider_all_free dist [] best = tt
consider_all_free dist (o ∷ os) best =
    let rest = consider_all_free dist os (consider dist o best) in
    elim (Bool-cases (is_free o)) [
      | inl f ↦ rw f (consider_all-Bounds dist os _ (dist o) (consider_free dist o best f), rest)
      | inr f ↦ rw f rest
    ]

false-ne-true : ¬ (◌≡◌ {A = Bool} false true)
false-ne-true h = cc

consider_all_open :
    (dist : Object → ℕ) (os : List Object) (best : Best)
    → is_none (consider_all dist os best).dest ≡ true
    → select is_open os ≡ []
unfolding consider_all
consider_all_open dist [] best h = refl
consider_all_open dist (o ∷ os) best h = elim (Bool-cases (is_open o)) [
  | inl p ↦
      let kept = consider_all_kept dist os (consider dist o best) (consider_open dist o best p) in
      absurd (false-ne-true (sym kept ∙ h))
  | inr p ↦ rw p (consider_all_open dist os _ h)
]

All-map :
    {A : Type 0} (P Q : A → Type 0) (xs : List A) → ((x : A) → P x → Q x) → All P xs → All Q xs
All-map P Q [] f h = tt
All-map P Q (x ∷ xs) f (p, h) = (f x p, All-map P Q xs f h)

consider_all-Answers :
    (dist : Object → ℕ) (os : List Object) → Answers dist os (consider_all dist os no_best).dest
unfolding Inv
consider_all-Answers dist os =
    let best = consider_all dist os no_best in
    elim (Option-cases best.dest) [
      | inl e ↦ rw e (consider_all_open dist os no_best (rw e refl))
      | inr (d, e) ↦
          let (n, o) = consider_all-Inv dist os no_best (λ d h. cc) d e in
          rw e (
            o,
            All-map _ _ (select is_free os) (λ x b. omega (arith, n, b.1))
                (consider_all_free dist os no_best),
          )
    ]

search_loop_lem :
    (find : ℕ → Option Object) (dist : Object → ℕ) (oids : List ℕ) (os : List Object) (best : Best)
    → map find oids ≡ map some os
    → search_loop find dist oids best ≡ ok (consider_all dist os best)
unfolding search_loop consider_all
search_loop_lem find dist [] [] best h = refl
search_loop_lem find dist [] (o ∷ os) best h = cc
search_loop_lem find dist (oid ∷ oids) [] best h = cc
search_loop_lem find dist (oid ∷ oids) (o ∷ os) best h =
    let e : find oid ≡ some o = cc in rw (search_loop, e) (search_loop_lem find dist oids os _ (cc))

-- The loop of `smith_order_fleet` through objects that are all known returns. It answers none only if
-- no planet is open (a planet that no fleet of the player is under way to); what it answers is an open
-- planet, and no open planet without an owner is closer.
search_loop-Answers :
    (find : ℕ → Option Object) (dist : Object → ℕ) (oids : List ℕ) (os : List Object)
    → map find oids ≡ map some os
    → (best : Best) × (search_loop find dist oids no_best ≡ ok best) × Answers dist os best.dest
search_loop-Answers find dist oids os h = (
  consider_all dist os no_best,
  search_loop_lem find dist oids os no_best h,
  consider_all-Answers dist os,
)
