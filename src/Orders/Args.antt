-- ===== src/Orders/Args.antt =====
-- The arguments of an order: `union order_arg_data` of tpe_orders.h, `tpe_order_parse_args` and the
-- sizes and writers of tpe_orders.c.
pub mod Write
pub mod RoundTrip
use galaxie.Prelude.{ℕ, zero, suc, Option, none, some, List, [], ◌∷◌, ltb, ◌==◌, if◌then◌else◌}
use galaxie.Run.{Run, ok, aborted, undefined, ◌>>=◌}
use galaxie.Parse.{Cursor}
use galaxie.Parse.Fields.{
  Value, OrderArg, BuildResources, int as int_value, long as long_value, str as str_value, pointer,
}
use galaxie.Parse.Packet.{parse_from}

pub record Coord : Type 0 where
  pub x : ℕ
  pub y : ℕ
  pub z : ℕ

pub record ListOption : Type 0 where
  pub id : ℕ
  pub option : List ℕ
  pub max : ℕ

pub record Selection : Type 0 where
  pub selection : ℕ
  pub count : ℕ

-- `union order_arg_data`, less the pointer `data` of each struct; `unset` is the union as `calloc`
-- leaves it. A string may be NULL.
pub data ArgData : Type 0 where
  coord : Coord → ArgData
  time : (turns max : ℕ) → ArgData
  object : (oid : ℕ) → ArgData
  player : (pid flags : ℕ) → ArgData
  relcoord : (obj : ℕ) → Coord → ArgData
  range : (value min max inc : ℕ) → ArgData
  list : List ListOption → List Selection → ArgData
  string : (maxlen : ℕ) → Option (List ℕ) → ArgData
  unset : ArgData

-- `struct order`; the build resources are those of the format letter 'B'.
pub record Order : Type 0 where
  pub oid : ℕ
  pub slot : ℕ
  pub type : ℕ
  pub turns : ℕ
  pub nresources : ℕ
  pub resources : List BuildResources
  pub args : List ArgData

-- What the parse of one argument stores, and where it leaves `p`.
unfoldable pub parsed_coord : List Value → Run (ArgData × Cursor)
parsed_coord (long_value x ∷ long_value y ∷ long_value z ∷ pointer p ∷ []) =
    ok (coord (record { x = x; y = y; z = z }), p)
parsed_coord _ = undefined

unfoldable pub parsed_time : List Value → Run (ArgData × Cursor)
parsed_time (int_value turns ∷ int_value max ∷ pointer p ∷ []) = ok (time turns max, p)
parsed_time _ = undefined

unfoldable pub parsed_object : List Value → Run (ArgData × Cursor)
parsed_object (int_value oid ∷ pointer p ∷ []) = ok (object oid, p)
parsed_object _ = undefined

unfoldable pub parsed_relcoord : List Value → Run (ArgData × Cursor)
parsed_relcoord (int_value obj ∷ long_value x ∷ long_value y ∷ long_value z ∷ pointer p ∷ []) =
    ok (relcoord obj (record { x = x; y = y; z = z }), p)
parsed_relcoord _ = undefined

-- The format "iiii" has no 'p': the pointer that is passed is not set.
unfoldable parsed_range : Cursor → List Value → Run (ArgData × Cursor)
parsed_range p (int_value value ∷ int_value min ∷ int_value max ∷ int_value inc ∷ []) =
    ok (range value min max inc, p)
parsed_range p _ = undefined

unfoldable pub parsed_string : List Value → Run (ArgData × Cursor)
parsed_string (int_value maxlen ∷ str_value s ∷ pointer p ∷ []) = ok (string maxlen (some s), p)
parsed_string _ = undefined

unfoldable pub parsed_number : List Value → Run (ℕ × Cursor)
parsed_number (int_value n ∷ pointer p ∷ []) = ok (n, p)
parsed_number _ = undefined

unfoldable parsed_option : List Value → Run (ListOption × Cursor)
parsed_option (int_value id ∷ str_value option ∷ int_value max ∷ pointer p ∷ []) =
    ok (record { id = id; option = option; max = max }, p)
parsed_option _ = undefined

unfoldable parsed_selection : List Value → Run (Selection × Cursor)
parsed_selection (int_value selection ∷ int_value count ∷ pointer p ∷ []) =
    ok (record { selection = selection; count = count }, p)
parsed_selection _ = undefined

unfoldable pub parse_number : Cursor → Run (ℕ × Cursor)
unfolding parse_from parsed_number
parse_number p = parse_from (b'i' ∷ b'p' ∷ []) p >>= λ r. parsed_number r.values

unfoldable pub parse_options : ℕ → Cursor → Run (List ListOption × Cursor)
unfolding parse_from parsed_option
parse_options zero p = ok ([], p)
parse_options (suc n) p = parse_from (b'i' ∷ b's' ∷ b'i' ∷ b'p' ∷ []) p >>= λ r.
    parsed_option r.values >>= λ o. parse_options n o.1 >>= λ os. ok (o.0 ∷ os.0, os.1)

unfoldable pub parse_selections : ℕ → Cursor → Run (List Selection × Cursor)
unfolding parse_from parsed_selection
parse_selections zero p = ok ([], p)
parse_selections (suc n) p = parse_from (b'i' ∷ b'i' ∷ b'p' ∷ []) p >>= λ r.
    parsed_selection r.values >>= λ s. parse_selections n s.1 >>= λ ss. ok (s.0 ∷ ss.0, ss.1)

unfoldable pub parse_list : Cursor → Run (ArgData × Cursor)
unfolding parse_number parse_options parse_selections
parse_list p = parse_number p >>= λ noptions.
    if ltb noptions.0 1000
    then (parse_options noptions.0 noptions.1 >>= λ options.
        parse_number options.1 >>= λ nselections.
        parse_selections nselections.0 nselections.1 >>= λ selections.
        ok (list options.0 selections.0, selections.1))
    else aborted

-- One round of `tpe_order_parse_args`. That of a player passes no place for the pointer of its 'p',
-- which is then written to wherever the next argument of no call leads. A type that is not known
-- leaves the union as it is.
unfoldable pub parse_arg : ℕ → Cursor → Run (ArgData × Cursor)
unfolding parse_from parse_list parsed_coord parsed_time parsed_object parsed_relcoord parsed_range
    parsed_string
parse_arg type p =
    if type == 0
    then (parse_from (b'l' ∷ b'l' ∷ b'l' ∷ b'p' ∷ []) p >>= λ r. parsed_coord r.values)
    else if type == 1
    then (parse_from (b'i' ∷ b'i' ∷ b'p' ∷ []) p >>= λ r. parsed_time r.values)
    else if type == 2
    then (parse_from (b'i' ∷ b'p' ∷ []) p >>= λ r. parsed_object r.values)
    else if type == 3
    then (parse_from (b'i' ∷ b'i' ∷ b'p' ∷ []) p >>= λ r. undefined)
    else if type == 4
    then (parse_from (b'i' ∷ b'l' ∷ b'l' ∷ b'l' ∷ b'p' ∷ []) p >>= λ r. parsed_relcoord r.values)
    else if type == 5
    then (parse_from (b'i' ∷ b'i' ∷ b'i' ∷ b'i' ∷ []) p >>= λ r. parsed_range p r.values)
    else if type == 6
    then parse_list p
    else if type == 7
    then (parse_from (b'i' ∷ b's' ∷ b'p' ∷ []) p >>= λ r. parsed_string r.values)
    else ok (unset, p)

-- The loop over the arguments of the description.
unfoldable pub tpe_order_parse_args : List OrderArg → Cursor → Run (List ArgData)
unfolding parse_arg
tpe_order_parse_args [] p = ok []
tpe_order_parse_args (a ∷ args) p =
    parse_arg a.arg_type p >>= λ d. tpe_order_parse_args args d.1 >>= λ ds. ok (d.0 ∷ ds)
