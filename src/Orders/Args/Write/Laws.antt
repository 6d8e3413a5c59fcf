-- ===== src/Orders/Args/Write/Laws.antt =====
-- The arguments of an order are written as their sizes have been counted.
use galaxie.Prelude.{
  ℕ, ◌+◌, ◌*◌, ◌-◌, ◌<◌, ◌≤◌, ◌≡◌, ◌≢◌, refl, sym, ap, arith, none, some, List, [], ◌∷◌, ◌++◌,
  length, leb, replicate, length-append, true,
}
use galaxie.Run.{ok}
use galaxie.Wire.{IsU64, be32, be64, le64, swap32}
use galaxie.Wire.Bytes.{ntohll-ntohll}
use galaxie.Parse.Fields.{OrderArg}
use galaxie.Server.Format.{strncpy, padded}
use galaxie.Server.Format.Chunks.{length-strncpy, padded_bounds}
use galaxie.Orders.Args.{
  Coord, Selection, ArgData, coord, time, object, player, relcoord, range, list, string, unset,
}
use galaxie.Orders.Args.Write.{
  htonl_in_64, le_ntohll, selection_words, arg_string_size_get, arg_size, arg_string_write,
  arg_write, args_size, args_write, args_bytes,
}

-- `htonl` of a 64-bit number: its low word in front, and four zeros.
abbrev pub high_word : ℕ → List ℕ
high_word x = be32 x ++ be32 0

-- What each kind of argument is on the wire.
abbrev pub arg_bytes : ArgData → List ℕ
arg_bytes (coord c) = be64 c.x ++ (be64 c.y ++ be64 c.z)
arg_bytes (time turns max) = be32 turns ++ be32 0
arg_bytes (object oid) = be32 oid
arg_bytes (player pid flags) = be32 pid ++ be32 0
arg_bytes (relcoord obj c) = be32 obj ++ (high_word c.x ++ (high_word c.y ++ high_word c.z))
arg_bytes (range value min max inc) = be32 value ++ replicate 12 0
arg_bytes (list os ss) = replicate 12 0 ++ (be32 (length ss) ++ selection_words ss)
arg_bytes (string maxlen none) = []
arg_bytes (string maxlen (some s)) =
    be32 0 ++ (be32 (padded (length s)) ++ strncpy s (padded (length s)))
arg_bytes unset = []

abbrev pub IsCoord : Coord → Type 0
IsCoord c = IsU64 c.x × IsU64 c.y × IsU64 c.z

-- The data are those of the type, which has a writer; a string is not longer than its `maxlen`.
abbrev IsWritable : ℕ → ArgData → Type 0
IsWritable type (coord c) = (type ≡ 0) × IsCoord c
IsWritable type (time turns max) = type ≡ 1
IsWritable type (object oid) = type ≡ 2
IsWritable type (player pid flags) = type ≡ 3
IsWritable type (relcoord obj c) = (type ≡ 4) × IsCoord c
IsWritable type (range value min max inc) = type ≡ 5
IsWritable type (list os ss) = type ≡ 6
IsWritable type (string maxlen none) = ⊥
IsWritable type (string maxlen (some s)) = (type ≡ 7) × (length s ≤ maxlen)
IsWritable type unset = ⊥

abbrev pub AllWritable : List OrderArg → List ArgData → Type 0
AllWritable [] [] = Unit
AllWritable (a ∷ args) (d ∷ ds) = IsWritable a.arg_type d × AllWritable args ds
AllWritable _ _ = ⊥

abbrev pub all_arg_bytes : List ArgData → List ℕ
all_arg_bytes [] = []
all_arg_bytes (d ∷ ds) = arg_bytes d ++ all_arg_bytes ds

le_ntohll_lem : (x : ℕ) → IsU64 x → le_ntohll x ≡ be64 x
unfolding le_ntohll
le_ntohll_lem x h = (ntohll-ntohll x h).1

htonl_in_64_lem : (x : ℕ) → htonl_in_64 x ≡ high_word x
unfolding htonl_in_64 le64 swap32 be32
htonl_in_64_lem x = ground arith

length-selection_words : (ss : List Selection) → length (selection_words ss) ≡ 8 * length ss
unfolding selection_words be32
length-selection_words [] = refl
length-selection_words (s ∷ ss) = omega (arith, length-selection_words ss)

length_string :
    (s : List ℕ)
    → length (be32 0 ++ (be32 (padded (length s)) ++ strncpy s (padded (length s))))
      ≡ 8 + padded (length s)
unfolding be32
length_string s = omega (arith, length-strncpy s (padded (length s)) (padded_bounds (length s)).0)

arg_size_lem :
    (type : ℕ) (d : ArgData) → IsWritable type d → arg_size type d ≡ ok (length (arg_bytes d))
unfolding arg_size arg_string_size_get be64 be32
arg_size_lem type (coord c) (e, h) = rw e refl
arg_size_lem type (time turns max) e = rw e refl
arg_size_lem type (object oid) e = rw e refl
arg_size_lem type (player pid flags) e = rw e refl
arg_size_lem type (relcoord obj c) (e, h) = rw e refl
arg_size_lem type (range value min max inc) e = rw e refl
arg_size_lem type (list os ss) e = rw e (ap ok (omega (arith, length-selection_words ss)))
arg_size_lem type (string maxlen none) e = elim e [ ]
arg_size_lem type (string maxlen (some s)) (e, l) = rw e (ground (arith, l, length_string s))
arg_size_lem type unset e = elim e [ ]

three : {x y z u v w : List ℕ} → x ≡ u → y ≡ v → z ≡ w → x ++ (y ++ z) ≡ u ++ (v ++ w)
three p q r = rw (p, q, r) refl

arg_write_lem :
    (room type : ℕ) (d : ArgData)
    → IsWritable type d
    → length (arg_bytes d) ≤ room
    → arg_write room type d ≡ ok (arg_bytes d)
unfolding arg_write arg_string_write arg_string_size_get
arg_write_lem room type (coord c) (e, (x, y, z)) r =
    rw e (ap ok (three (le_ntohll_lem c.x x) (le_ntohll_lem c.y y) (le_ntohll_lem c.z z)))
arg_write_lem room type (time turns max) e r = rw e refl
arg_write_lem room type (object oid) e r = rw e refl
arg_write_lem room type (player pid flags) e r = rw e refl
arg_write_lem room type (relcoord obj c) (e, h) r = rw e (
    ap (λ r. ok (be32 obj ++ r))
      (three (htonl_in_64_lem c.x) (htonl_in_64_lem c.y) (htonl_in_64_lem c.z)))
arg_write_lem room type (range value min max inc) e r = rw e refl
arg_write_lem room type (list os ss) e r = rw e refl
arg_write_lem room type (string maxlen none) e r = elim e [ ]
arg_write_lem room type (string maxlen (some s)) (e, l) r =
    rw e (ground (arith, l, length_string s, r))
arg_write_lem room type unset e r = elim e [ ]

args_size_lem :
    (args : List OrderArg) (ds : List ArgData)
    → AllWritable args ds
    → args_size args ds ≡ ok (length (all_arg_bytes ds))
unfolding args_size
args_size_lem [] [] h = refl
args_size_lem [] (d ∷ ds) h = elim h [ ]
args_size_lem (a ∷ args) [] h = elim h [ ]
args_size_lem (a ∷ args) (d ∷ ds) (w, h) =
    rw (arg_size_lem a.arg_type d w, args_size_lem args ds h)
      (ap ok (sym (length-append (arg_bytes d) (all_arg_bytes ds))))

args_write_lem :
    (room : ℕ) (args : List OrderArg) (ds : List ArgData)
    → AllWritable args ds
    → length (all_arg_bytes ds) ≤ room
    → args_write room args ds ≡ ok (all_arg_bytes ds)
unfolding args_write
args_write_lem room [] [] h r = refl
args_write_lem room [] (d ∷ ds) h r = elim h [ ]
args_write_lem room (a ∷ args) [] h r = elim h [ ]
args_write_lem room (a ∷ args) (d ∷ ds) (w, h) r =
    let l = length-append (arg_bytes d) (all_arg_bytes ds) in
    let fits : leb (length (arg_bytes d)) room ≡ true = ground (arith, r, l) in
    rw
      (
        arg_write_lem room a.arg_type d w (omega (arith, r, l)),
        fits,
        args_write_lem (room - length (arg_bytes d)) args ds h (omega (arith, r, l)),
      )
      refl

-- Where the data of an order are those of its description's arguments, each of a type that has a
-- writer, and no string is longer than its `maxlen`, the two loops of `tpe_orders_order_update`
-- agree: the size that the first one counts is that of the arguments' bytes, and in a buffer of this
-- size the second one writes each argument's bytes in order, all of the buffer and nothing outside.
pub args_bytes_lem :
    (args : List OrderArg) (ds : List ArgData)
    → AllWritable args ds
    → (args_size args ds ≡ ok (length (all_arg_bytes ds)))
      × (args_write (length (all_arg_bytes ds)) args ds ≡ ok (all_arg_bytes ds))
      × (args_bytes args ds ≡ ok (all_arg_bytes ds))
unfolding args_bytes
args_bytes_lem args ds h =
    let size = args_size_lem args ds h in
    let written = args_write_lem (length (all_arg_bytes ds)) args ds h (omega arith) in
    (size, written, rw size written)

-- A string of which the padded length is above the padded `maxlen` is never sent: its writer ends in
-- the failed assertion, or before it outside the buffer.
arg_string_write-ne-ok :
    (room maxlen : ℕ) (s written : List ℕ)
    → padded maxlen < padded (length s)
    → arg_string_write room maxlen (some s) ≢ ok written
unfolding arg_string_write arg_string_size_get padded
arg_string_write-ne-ok room maxlen s written h = λ e. ground (arith, h, e)
