-- ===== src/Orders/Args/RoundTrip.antt =====
-- What the writers write, `tpe_order_parse_args` reads.
use mathlib.Core.List.{append_assoc}
use galaxie.Prelude.{
  ℕ, ◌*◌, ◌^◌, ◌<◌, ◌≡◌, ◌≢◌, refl, ap, arith, none, some, List, [], ◌∷◌, ◌++◌, length, All,
}
use galaxie.Run.{ok, ◌>>=◌}
use galaxie.Wire.{IsU32, be32, be64}
use galaxie.Parse.{at, read_int, read_long}
use galaxie.Parse.Fields.{OrderArg, field}
use galaxie.Parse.Packet.{parse_from}
use galaxie.Parse.RoundTrip.Strings.{read_int-be32, read_long-be64, extract-padded}
use galaxie.Server.Format.{strncpy, padded}
use galaxie.Server.Format.Chunks.{padded_bounds}
use galaxie.Orders.Args.{
  Coord, ListOption, Selection, ArgData, coord, time, object, player, relcoord, range, list, string,
  unset, parse_arg, parse_list, parse_number, parse_options, parse_selections, parsed_coord,
  parsed_time, parsed_object, parsed_relcoord, parsed_string, parsed_number, tpe_order_parse_args,
}
use galaxie.Orders.Args.Write.{selection_words, args_bytes}
use galaxie.Orders.Args.Write.Laws.{
  arg_bytes, all_arg_bytes, IsCoord, high_word, AllWritable, args_bytes_lem,
}

-- A 64-bit number of which `htonl` has been sent.
abbrev shifted : Coord → Coord
shifted c = record { x = c.x * 2 ^ 32; y = c.y * 2 ^ 32; z = c.z * 2 ^ 32 }

abbrev IsSmall : Coord → Type 0
IsSmall c = IsU32 c.x × IsU32 c.y × IsU32 c.z

-- The data that come back for an argument: what is only read is 0, and the coordinates relative to
-- an object have moved up by 32 bits.
abbrev read_back : ArgData → ArgData
read_back (time turns max) = time turns 0
read_back (relcoord obj c) = relcoord obj (shifted c)
read_back (string maxlen s) = string 0 s
read_back d = d

-- The kinds that the reader takes from the same place, with numbers that fit.
abbrev IsReadable : ℕ → ArgData → Type 0
IsReadable type (coord c) = (type ≡ 0) × IsCoord c
IsReadable type (time turns max) = (type ≡ 1) × IsU32 turns
IsReadable type (object oid) = (type ≡ 2) × IsU32 oid
IsReadable type (relcoord obj c) = (type ≡ 4) × IsU32 obj × IsSmall c
IsReadable type (string maxlen (some s)) = (type ≡ 7) × All (λ b. b ≢ 0) s × (length s < 1997)
IsReadable type _ = ⊥

abbrev AllReadable : List OrderArg → List ArgData → Type 0
AllReadable [] [] = Unit
AllReadable (a ∷ args) (d ∷ ds) = IsReadable a.arg_type d × AllReadable args ds
AllReadable _ _ = ⊥

abbrev pub read_all : List ArgData → List ArgData
read_all [] = []
read_all (d ∷ ds) = read_back d ∷ read_all ds

read_long-high_word :
    (x : ℕ) (more : List ℕ)
    → IsU32 x
    → read_long (at (high_word x ++ more)) ≡ ok (x * 2 ^ 32, at more)
unfolding read_long read_int be32
read_long-high_word x more h = ap (λ n. ok (n, at more)) (omega arith)

parse_arg_coord :
    (c : Coord) (more : List ℕ)
    → IsCoord c
    → parse_arg 0 (at (arg_bytes (coord c) ++ more)) ≡ ok (coord c, at more)
unfolding parse_arg parse_from field parsed_coord
parse_arg_coord c more (x, y, z) =
    rw
      (
        append_assoc (be64 c.x) (be64 c.y ++ be64 c.z) more,
        append_assoc (be64 c.y) (be64 c.z) more,
        read_long-be64 c.x (be64 c.y ++ (be64 c.z ++ more)) x,
        read_long-be64 c.y (be64 c.z ++ more) y,
        read_long-be64 c.z more z,
      )
      refl

parse_arg_time :
    (turns max : ℕ) (more : List ℕ)
    → IsU32 turns
    → parse_arg 1 (at (arg_bytes (time turns max) ++ more)) ≡ ok (time turns 0, at more)
unfolding parse_arg parse_from field parsed_time
parse_arg_time turns max more h =
    rw
      (
        append_assoc (be32 turns) (be32 0) more,
        read_int-be32 turns (be32 0 ++ more) h,
        read_int-be32 0 more (omega arith),
      )
      refl

parse_arg_relcoord :
    (obj : ℕ) (c : Coord) (more : List ℕ)
    → IsU32 obj
    → IsSmall c
    → parse_arg 4 (at (arg_bytes (relcoord obj c) ++ more)) ≡ ok (relcoord obj (shifted c), at more)
unfolding parse_arg parse_from field parsed_relcoord
parse_arg_relcoord obj c more h (x, y, z) =
    let X = high_word c.x in
    let Y = high_word c.y in
    let Z = high_word c.z in
    rw
      (
        append_assoc (be32 obj) (X ++ (Y ++ Z)) more,
        append_assoc X (Y ++ Z) more,
        append_assoc Y Z more,
        read_int-be32 obj (X ++ (Y ++ (Z ++ more))) h,
        read_long-high_word c.x (Y ++ (Z ++ more)) x,
        read_long-high_word c.y (Z ++ more) y,
        read_long-high_word c.z more z,
      )
      refl

parse_arg_string :
    (maxlen : ℕ) (s more : List ℕ)
    → All (λ b. b ≢ 0) s
    → length s < 1997
    → parse_arg 7 (at (arg_bytes (string maxlen (some s)) ++ more))
      ≡ ok (string 0 (some s), at more)
unfolding parse_arg parse_from field parsed_string
parse_arg_string maxlen s more h l =
    let n = padded (length s) in
    rw
      (
        append_assoc (be32 0) (be32 n ++ strncpy s n) more,
        append_assoc (be32 n) (strncpy s n) more,
        read_int-be32 0 (be32 n ++ (strncpy s n ++ more)) (omega arith),
        extract-padded s more n h (padded_bounds (length s)).0
            (omega (arith, padded_bounds (length s))),
      )
      refl

parse_arg-arg_bytes :
    (type : ℕ) (d : ArgData) (more : List ℕ)
    → IsReadable type d
    → parse_arg type (at (arg_bytes d ++ more)) ≡ ok (read_back d, at more)
parse_arg-arg_bytes type (coord c) more (e, h) = rw e (parse_arg_coord c more h)
parse_arg-arg_bytes type (time turns max) more (e, h) = rw e (parse_arg_time turns max more h)
parse_arg-arg_bytes type (object oid) more (e, h) =
    unfold parse_arg parse_from field parsed_object in rw (e, read_int-be32 oid more h) refl
parse_arg-arg_bytes type (relcoord obj c) more (e, h, s) = rw e (parse_arg_relcoord obj c more h s)
parse_arg-arg_bytes type (string maxlen (some s)) more (e, h, l) =
    rw e (parse_arg_string maxlen s more h l)
parse_arg-arg_bytes type (string maxlen none) more h = elim h [ ]
parse_arg-arg_bytes type (player pid flags) more h = elim h [ ]
parse_arg-arg_bytes type (range value min max inc) more h = elim h [ ]
parse_arg-arg_bytes type (list os ss) more h = elim h [ ]
parse_arg-arg_bytes type unset more h = elim h [ ]

parse_all_arg_bytes :
    (args : List OrderArg) (ds : List ArgData) (more : List ℕ)
    → AllReadable args ds
    → tpe_order_parse_args args (at (all_arg_bytes ds ++ more)) ≡ ok (read_all ds)
unfolding tpe_order_parse_args
parse_all_arg_bytes [] [] more h = refl
parse_all_arg_bytes [] (d ∷ ds) more h = elim h [ ]
parse_all_arg_bytes (a ∷ args) [] more h = elim h [ ]
parse_all_arg_bytes (a ∷ args) (d ∷ ds) more (r, h) =
    rw
      (
        append_assoc (arg_bytes d) (all_arg_bytes ds) more,
        parse_arg-arg_bytes a.arg_type d (all_arg_bytes ds ++ more) r,
        parse_all_arg_bytes args ds more h,
      )
      refl

-- The arguments of an order that are coordinates, times, objects, coordinates relative to an object
-- and strings come back from the buffer that `tpe_orders_order_update` makes of them, in order and
-- whatever follows it: a time without its maximum, a string without its `maxlen`, and relative
-- coordinates times 2 ^ 32. The numbers fit their words, relative coordinates 32 bits, and the strings
-- have no NUL inside, at most `maxlen` bytes and fewer than 1997.
pub parse_args-args_bytes :
    (args : List OrderArg) (ds : List ArgData) (more : List ℕ)
    → AllWritable args ds
    → AllReadable args ds
    → (args_bytes args ds >>= λ buf. tpe_order_parse_args args (at (buf ++ more)))
      ≡ ok (read_all ds)
parse_args-args_bytes args ds more w r =
    rw (args_bytes_lem args ds w).2 (parse_all_arg_bytes args ds more r)

-- The list of selections that `arg_list_write` writes, with any options: the reader finds neither an
-- option nor a selection, and goes on one word before the number of selections.
parse_list-arg_bytes :
    (os : List ListOption) (ss : List Selection) (more : List ℕ)
    → parse_arg 6 (at (arg_bytes (list os ss) ++ more))
      ≡ ok (list [] [], at (be32 0 ++ ((be32 (length ss) ++ selection_words ss) ++ more)))
unfolding parse_arg parse_list parse_number parse_options parse_selections parse_from field
    parsed_number be32 read_int
parse_list-arg_bytes os ss more = ground arith
