-- ===== src/Star/Tests.antt =====
-- The theorems on stars at a star that the pointer enters, and that is given a number.
use galaxie.Prelude.{◌≡◌, refl, true, none, some, [], ◌∷◌}
use galaxie.Run.{ok}
use galaxie.Star.{
  Star, star, smart_add, smart_del, with_id, smart_mouse_in, gui_star_add, gui_star_id_set,
}
use galaxie.Star.Timer.{enter, happen, Reaches, start, then_event, timers, Reaches-happen}

abbrev entered : Star
entered = record { x = 0; y = 0; id = 0; name = none; intimer = some 7; defaultname = true }

after_enter : Reaches smart_add [] entered (7 ∷ [])
unfolding smart_add happen smart_mouse_in
after_enter = then_event (enter 7) start tt refl

-- The pointer enters again without having left.
Reaches-happen_example :
    ((u : Star) × (happen (enter 8) entered (7 ∷ []) ≡ ok (u, timers u.intimer)))
    × (smart_del entered (7 ∷ []) ≡ 7 ∷ [])
unfolding smart_add
Reaches-happen_example = Reaches-happen after_enter refl (enter 8) tt

-- A star that is added with the number 0 and no name shows no name at all.
no_default_name : gui_star_add 0 none ≡ star smart_add
unfolding gui_star_add gui_star_id_set with_id smart_add
no_default_name = refl
