-- ===== src/Objects/Tests.antt =====
-- The theorems on objects at a star with two planets.
use galaxie.Prelude.{
  ℕ, ◌≡◌, ◌≢◌, refl, arith, true, false, Option, none, some, List, [], ◌∷◌, ◌==◌, if◌then◌else◌,
  All,
}
use galaxie.Run.{ok}
use galaxie.Wire.{of_be32}
use galaxie.Parse.{
  read_int, read_long, tpe_util_string_extract, copy_string, until_nul, has_nul, read_many,
  skip_words,
}
use galaxie.Parse.Fields.{field, int_case, str_case, long_case, array_case}
use galaxie.Parse.Packet.{tpe_util_parse_packet, parse_from}
use galaxie.Board.{first_int}
use galaxie.Server.{Msg}
use galaxie.Objects.{
  EinaHash, Object, Objects, empty_object, stored, tpe_obj_obj_get_by_id, tpe_obj_object_updated,
  tpe_obj_obj_add, tpe_obj_list_begin,
}
use galaxie.Objects.Check.{list_begin-marks}
use galaxie.Objects.Family.{tpe_obj_obj_sibling_get, sibling_get_lem}
use galaxie.Objects.Receive.{
  Notice, receive_all, tpe_obj_data_receive, object_for, free_orders, finish, object_values,
  no_orders,
}
use galaxie.Objects.Receive.Quiet.{IsNews, receive_all-IsNews}
use galaxie.Objects.Children.{
  is_child_of, tpe_obj_update_children, lose_old, adopt_all, adopt, update_children-IsChild,
}

-- A table as a function.
abbrev function_hash : EinaHash (ℕ → Option Object) Object
function_hash = record {
  find = λ h k. h k;
  set = λ h k o. λ j. if j == k then some o else h j;
  find-set = λ h k o j. refl;
}

abbrev star : Object
star = record (empty_object 5) { children = 6 ∷ 7 ∷ [] }

abbrev planet : ℕ → Object
planet oid = record (empty_object oid) { parent = 5; type = 3 }

abbrev universe : Objects (ℕ → Option Object)
universe = record {
  objhash = λ k. if k == 5 then some star else if k == 6 then some (planet 6) else none;
  check = 0;
  home = none;
}

abbrev empty_universe : Objects (ℕ → Option Object)
empty_universe = record { objhash = λ k. none; check = 0; home = none }

sibling_get_lem_example :
    (tpe_obj_obj_sibling_get function_hash universe (planet 6) true
      ≡ tpe_obj_obj_get_by_id function_hash universe 7)
    × (tpe_obj_obj_sibling_get function_hash universe (planet 6) false ≡ none)
sibling_get_lem_example =
    sibling_get_lem function_hash universe (planet 6) star [] (7 ∷ []) (λ e. omega (arith, e)) refl
      refl tt

abbrev planet_msg : Msg
planet_msg = record {
  type = "MsgObject";
  seq = 0;
  len = 60;
  protocol = 4;
  body =
      0 ∷ 0 ∷ 0 ∷ 6 ∷ 0 ∷ 0 ∷ 0 ∷ 3 ∷ 0 ∷ 0 ∷ 0 ∷ 1 ∷ b'A' ∷ 0 ∷ 0 ∷ 0 ∷ 0 ∷ 0 ∷ 0 ∷ 0 ∷ 5 ∷ 0 ∷ 0
      ∷ 0 ∷ 0 ∷ 0 ∷ 0 ∷ 0 ∷ 0 ∷ 0 ∷ 0 ∷ 0 ∷ 9 ∷ 0 ∷ 0 ∷ 0 ∷ 0 ∷ 0 ∷ 0 ∷ 0 ∷ 0 ∷ 0 ∷ 0 ∷ 0 ∷ 0 ∷ 0
      ∷ 0 ∷ 0 ∷ 0 ∷ [];
}

abbrev described_planet : Object
described_planet = record (empty_object 6) {
  server = true;
  type = 3;
  name = some (b'A' ∷ []);
  description = some [];
  parent = 5;
  updated = 9;
}

abbrev after_planet : Objects (ℕ → Option Object) × List Notice
after_planet = (
  stored function_hash (stored function_hash empty_universe 6 (empty_object 6)) 6 described_planet,
  record { event = "ObjectNew"; oid = 6 } ∷ [],
)

planet_received : receive_all function_hash empty_universe (planet_msg ∷ []) ≡ ok after_planet
unfolding receive_all tpe_obj_data_receive object_for tpe_obj_obj_add tpe_obj_obj_get_by_id
    free_orders finish object_values no_orders tpe_util_parse_packet parse_from field int_case
    str_case long_case array_case read_int read_long of_be32 tpe_util_string_extract copy_string
    until_nul has_nul read_many skip_words first_int
planet_received = refl

receive_all-IsNews_example : All IsNews after_planet.1
receive_all-IsNews_example =
    receive_all-IsNews function_hash empty_universe (planet_msg ∷ []) after_planet (λ k. refl)
      planet_received

abbrev after_star : Objects (ℕ → Option Object)
after_star =
    stored function_hash (stored function_hash universe 7 (empty_object 7)) 7
      (record (empty_object 7) { updated = 1; isnew = true; parent = 5; server = true })

star_updated : tpe_obj_update_children function_hash universe star (6 ∷ []) ≡ ok after_star
unfolding tpe_obj_update_children lose_old adopt_all adopt tpe_obj_obj_add tpe_obj_obj_get_by_id
star_updated = refl

update_children-IsChild_example :
    All (λ c. is_child_of 5 (function_hash.find after_star.objhash c) ≡ true) (6 ∷ 7 ∷ [])
update_children-IsChild_example =
    update_children-IsChild function_hash universe star (6 ∷ []) after_star star_updated

list_begin-marks_example :
    (out : Objects (ℕ → Option Object)) × (tpe_obj_list_begin (λ k. k) 2 0 universe ≡ ok out)
    × (out.check ≢ 0)
    × (tpe_obj_object_updated function_hash out 5
        ≡ (stored function_hash out 5 (record star { ref = out.check }), 0))
unfolding tpe_obj_obj_get_by_id
list_begin-marks_example =
    list_begin-marks function_hash (λ k. k) 2 1 universe 5 star (omega arith)
      (λ e. omega (arith, e)) refl
