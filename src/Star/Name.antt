-- ===== src/Star/Name.antt =====
-- The name that gui/star.c shows for a star without one of its own.
use galaxie.Prelude.{
  ℕ, ◌≡◌, refl, false, none, some, List, ◌==◌, Bool-cases, Option-cases, inl, inr, ◌⊎◌,
}
use galaxie.Run.{Returns, Returns-ok, >>=-Returns}
use galaxie.Star.{
  Star, start_default_name_get, with_id, smart_add, ecore_timer_del, smart_mouse_in,
  smart_mouse_out, smart_mouse_hover,
}
use galaxie.Star.Timer.{
  Event, enter, leave, fire, rename, renumber, happen, Reaches, start, then_event,
}

-- While the name is the default one it is that of the number; only a star whose number was never
-- set to another than 0 has none.
abbrev pub IsNamed : Star → Type 0
IsNamed s =
    (s.defaultname ≡ false)
    ⊎ ((s.name ≡ some (start_default_name_get s.id)) ⊎ ((s.id ≡ 0) × (s.name ≡ none)))

with_id-IsNamed : (id : ℕ) (s : Star) → IsNamed s → IsNamed (with_id id s)
unfolding with_id
with_id-IsNamed id s h = elim (Bool-cases (id == s.id)) [
  | inl t ↦ rw (with_id, t) h
  | inr t ↦ elim (Bool-cases s.defaultname) [
    | inl d ↦ rw (with_id, t, d) (inr (inl refl))
    | inr d ↦ rw (with_id, t, d) (inl refl)
  ]
]

smart_add-IsNamed : IsNamed smart_add
unfolding smart_add
smart_add-IsNamed = inr (inr (refl, refl))

happen-IsNamed :
    (e : Event) (s : Star) (live : List ℕ)
    → IsNamed s
    → Returns (λ r. IsNamed r.0) (happen e s live)
unfolding happen smart_mouse_in smart_mouse_out smart_mouse_hover
happen-IsNamed (enter timer) s live h = elim (Option-cases s.intimer) [
  | inl e ↦ rw (happen, e) h
  | inr (old, e) ↦ rw (happen, e) (>>=-Returns _ (ecore_timer_del old live) _ (λ _ _. h))
]
happen-IsNamed leave s live h = elim (Option-cases s.intimer) [
  | inl e ↦ rw (happen, e) h
  | inr (old, e) ↦ rw (happen, e) (>>=-Returns _ (ecore_timer_del old live) _ (λ _ _. h))
]
happen-IsNamed (fire timer) s live h = >>=-Returns _ (ecore_timer_del timer live) _ (λ _ _. h)
happen-IsNamed (rename name) s live h = inl refl
happen-IsNamed (renumber id) s live h = with_id-IsNamed id s h

-- Whatever has happened to a new star: its name was set, or it shows the default name of its number,
-- or it shows none and its number is 0, the number that a new star has.
Reaches-IsNamed : {t : Star} {live there : List ℕ} → Reaches smart_add live t there → IsNamed t
Reaches-IsNamed start = smart_add-IsNamed
Reaches-IsNamed (then_event {t} {there} e reached possible run) =
    Returns-ok (λ r. IsNamed r.0) _ (happen-IsNamed e t there (Reaches-IsNamed reached)) run
