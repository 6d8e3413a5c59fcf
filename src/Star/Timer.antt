-- ===== src/Star/Timer.antt =====
-- The timer of gui/star.c through all that happens to a star.
use mathlib.Core.Path.{subst}
use galaxie.Prelude.{
  ℕ, ◌≡◌, refl, sym, ap, ◌∙◌, arith, false, Option, none, some, List, [], ◌∷◌, Option-cases, inl,
  inr, ◌⊎◌,
}
use galaxie.Run.{Run, ok}
use galaxie.Star.{
  Star, with_id, ecore_timer_del, smart_del, smart_mouse_in, smart_mouse_out, smart_mouse_hover,
}

-- What happens to a star until it is deleted: the pointer enters with a new timer, leaves, a timer runs out, or the program gives the star a name
-- or a number.
pub data Event : Type 0 where
  enter : ℕ → Event
  leave : Event
  fire : ℕ → Event
  rename : Option (List ℕ) → Event
  renumber : ℕ → Event

unfoldable pub happen : Event → Star → List ℕ → Run (Star × List ℕ)
unfolding smart_mouse_in smart_mouse_out smart_mouse_hover with_id
happen (enter timer) s live = smart_mouse_in timer s live
happen leave s live = smart_mouse_out s live
happen (fire timer) s live = smart_mouse_hover timer s live
happen (rename name) s live = ok (record s { name = name; defaultname = false }, live)
happen (renumber id) s live = ok (with_id id s, live)

-- Only a timer that is there runs out.
abbrev Has : ℕ → List ℕ → Type 0
Has timer [] = ⊥
Has timer (t ∷ live) = (t ≡ timer) ⊎ Has timer live

abbrev IsPossible : Event → List ℕ → Type 0
IsPossible (enter timer) live = Unit {0}
IsPossible leave live = Unit {0}
IsPossible (fire timer) live = Has timer live
IsPossible (rename name) live = Unit {0}
IsPossible (renumber id) live = Unit {0}

-- A star and the timers, after some events.
pub data Reaches : Star → List ℕ → Star → List ℕ → Type 0 where
  start : {s : Star} {live : List ℕ} → Reaches s live s live
  then_event :
      {s t : Star} {live there : List ℕ} {u : Star} {after : List ℕ} (e : Event)
      → Reaches s live t there
      → IsPossible e there
      → happen e t there ≡ ok (u, after)
      → Reaches s live u after

-- The timers that there are: that of `intimer`, and no other.
abbrev pub timers : Option ℕ → List ℕ
timers none = []
timers (some timer) = timer ∷ []

timer_del-timers : (timer : ℕ) → ecore_timer_del timer (timer ∷ []) ≡ ok []
unfolding ecore_timer_del
timer_del-timers timer = ground arith

timer_del_same : (timer old : ℕ) → old ≡ timer → ecore_timer_del timer (old ∷ []) ≡ ok []
unfolding ecore_timer_del
timer_del_same timer old q = ground arith

with_id-intimer : (id : ℕ) (s : Star) → (with_id id s).intimer ≡ s.intimer
unfolding with_id
with_id-intimer id s = ground arith

-- One event of a star whose timer is the only one there, is defined and leaves it so.
happen-timers :
    (e : Event) (s : Star)
    → IsPossible e (timers s.intimer)
    → (t : Star) × (happen e s (timers s.intimer) ≡ ok (t, timers t.intimer))
unfolding happen smart_mouse_in smart_mouse_out smart_mouse_hover
happen-timers (enter timer) s p = (
  record s { intimer = some timer },
  elim (Option-cases s.intimer) [
    | inl e ↦ rw (happen, e) refl
    | inr (old, e) ↦ rw (happen, e, timer_del-timers old) refl
  ],
)
happen-timers leave s p = (
  record s { intimer = none },
  elim (Option-cases s.intimer) [
    | inl e ↦ rw (happen, e) refl
    | inr (old, e) ↦ rw (happen, e, timer_del-timers old) refl
  ],
)
happen-timers (fire timer) s p = (
  record s { intimer = none },
  elim (Option-cases s.intimer) [
    | inl e ↦ absurd (subst (λ t. Has timer (timers t)) e p)
    | inr (old, e) ↦ elim (subst (λ t. Has timer (timers t)) e p) [
      | inl q ↦ rw (happen, e, timer_del_same timer old q) refl
      | inr none_left ↦ absurd none_left
    ]
  ],
)
happen-timers (rename name) s p = (record s { name = name; defaultname = false }, refl)
happen-timers (renumber id) s p =
    (with_id id s, ap (λ timer. ok (with_id id s, timers timer)) (sym (with_id-intimer id s)))

-- The timers, where they are those of the star.
happen_there :
    (e : Event) (t : Star) (there : List ℕ)
    → there ≡ timers t.intimer
    → IsPossible e there
    → (u : Star) × (happen e t there ≡ ok (u, timers u.intimer))
happen_there e t there same possible =
    subst (λ live. (u : Star) × (happen e t live ≡ ok (u, timers u.intimer))) (sym same)
      (happen-timers e t (subst (IsPossible e) same possible))

ok-pair :
    {r : Run (Star × List ℕ)} {t u : Star} {there : List ℕ}
    → r ≡ ok (t, timers t.intimer)
    → r ≡ ok (u, there)
    → there ≡ timers u.intimer
ok-pair {r} {t} {u} {there} p q =
    let e : t ≡ u = cc in
    let l : timers t.intimer ≡ there = cc in sym l ∙ ap (λ (v : Star). timers v.intimer) e

Reaches-timers :
    {s t : Star} {live there : List ℕ}
    → Reaches s live t there
    → live ≡ timers s.intimer
    → there ≡ timers t.intimer
Reaches-timers start h = h
Reaches-timers (then_event {t} {there} e reached possible run) h =
    let next = happen_there e t there (Reaches-timers reached h) possible in ok-pair next.1 run

-- Whatever has happened to a star that is not deleted, and whose pointer led to the only timer there
-- was, or was NULL while there was none: the next thing that can happen to it is defined, and the
-- same holds after it, so that no timer is lost and none is deleted twice. If the star is deleted
-- instead, a timer that its pointer leads to goes on.
pub Reaches-happen :
    {s t : Star} {live there : List ℕ}
    → Reaches s live t there
    → live ≡ timers s.intimer
    → (e : Event) → IsPossible e there
    → ((u : Star) × (happen e t there ≡ ok (u, timers u.intimer)))
      × (smart_del t there ≡ timers t.intimer)
unfolding smart_del
Reaches-happen {t} {there} reached h e possible =
    (happen_there e t there (Reaches-timers reached h) possible, Reaches-timers reached h)
