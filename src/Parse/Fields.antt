-- ===== src/Parse/Fields.antt =====
-- The values that `tpe_util_parse_packet` stores, and the case of its switch for each format letter.
-- Numbers are bit patterns.
use galaxie.Prelude.{ℕ, Option, none, some, List, [], ◌∷◌, ◌==◌, if◌then◌else◌}
use galaxie.Run.{Run, ok, undefined, ◌>>=◌}
use galaxie.Wire.{is_negative}
use galaxie.Parse.{Cursor, read_int, read_long, skip_words, tpe_util_string_extract, read_many}

-- `struct ObjectSeqID`
pub record ObjectSeqId : Type 0 where
  pub oid : ℕ
  pub updated : ℕ

-- `struct reference`
pub record Reference : Type 0 where
  pub type : ℕ
  pub value : ℕ

-- `struct order_arg`
pub record OrderArg : Type 0 where
  pub name : List ℕ
  pub arg_type : ℕ
  pub description : List ℕ

-- `struct arg_type6`
pub record ArgType6 : Type 0 where
  pub id : ℕ
  pub name : List ℕ
  pub max : ℕ

-- `struct build_resources`
pub record BuildResources : Type 0 where
  pub rid : ℕ
  pub cost : ℕ

-- `struct planet_resource`
pub record PlanetResource : Type 0 where
  pub rid : ℕ
  pub surface : ℕ
  pub minable : ℕ
  pub inaccessable : ℕ

-- `struct fleet_ship`
pub record FleetShip : Type 0 where
  pub design : ℕ
  pub count : ℕ

-- What a case stores through its destination pointers: an array has its count beside it.
pub data Value : Type 0 where
  int : ℕ → Value
  long : ℕ → Value
  str : List ℕ → Value
  ints : ℕ → List ℕ → Value
  oids : ℕ → List ObjectSeqId → Value
  pointer : Cursor → Value
  order_args : ℕ → List OrderArg → Value
  references : ℕ → List Reference → Value
  options : ℕ → List ArgType6 → Value
  build : ℕ → List BuildResources → Value
  planet : ℕ → List PlanetResource → Value
  ships : ℕ → List FleetShip → Value

unfoldable pub read_oid : Cursor → Run (ObjectSeqId × Cursor)
unfolding read_int read_long
read_oid c = do
  (oid, c₁) ← read_int c
  (updated, c₂) ← read_long c₁
  ok (record { oid = oid; updated = updated }, c₂)

unfoldable read_order_arg : Cursor → Run (OrderArg × Cursor)
unfolding read_int tpe_util_string_extract
read_order_arg c = do
  (name, c₁) ← tpe_util_string_extract c
  (arg_type, c₂) ← read_int c₁
  (description, c₃) ← tpe_util_string_extract c₂
  ok (record { name = name; arg_type = arg_type; description = description }, c₃)

unfoldable read_reference : Cursor → Run (Reference × Cursor)
unfolding read_int
read_reference c = do
  (type, c₁) ← read_int c
  (value, c₂) ← read_int c₁
  ok (record { type = type; value = value }, c₂)

unfoldable read_arg_type6 : Cursor → Run (ArgType6 × Cursor)
unfolding read_int tpe_util_string_extract
read_arg_type6 c = do
  (id, c₁) ← read_int c
  (name, c₂) ← tpe_util_string_extract c₁
  (max, c₃) ← read_int c₂
  ok (record { id = id; name = name; max = max }, c₃)

unfoldable read_build : Cursor → Run (BuildResources × Cursor)
unfolding read_int
read_build c = do
  (rid, c₁) ← read_int c
  (cost, c₂) ← read_int c₁
  ok (record { rid = rid; cost = cost }, c₂)

unfoldable read_planet : Cursor → Run (PlanetResource × Cursor)
unfolding read_int
read_planet c = do
  (rid, c₁) ← read_int c
  (surface, c₂) ← read_int c₁
  (minable, c₃) ← read_int c₂
  (inaccessable, c₄) ← read_int c₃
  ok (record { rid = rid; surface = surface; minable = minable; inaccessable = inaccessable }, c₄)

unfoldable read_ship : Cursor → Run (FleetShip × Cursor)
unfolding read_int
read_ship c = do
  (design, c₁) ← read_int c
  (count, c₂) ← read_int c₁
  ok (record { design = design; count = count }, c₂)

-- A case: the values stored, what it adds to `parsed`, and the pointer behind what it took.
pub record Case : Type 0 where
  pub values : List Value
  pub parsed : ℕ
  pub pdata : Cursor

abbrev pub one : Value → Cursor → Case
one v c = record { values = v ∷ []; parsed = 1; pdata = c }

-- The number of rounds of a loop up to a count that is an int.
abbrev pub rounds : ℕ → ℕ
rounds len = if is_negative len then 0 else len

unfoldable pub array_case :
    {A : Type 0} → (ℕ → List A → Value) → (Cursor → Run (A × Cursor)) → Cursor → Run Case
unfolding read_int read_many
array_case value read c = do
  (len, c₁) ← read_int c
  (xs, c₂) ← read_many read (rounds len) c₁
  ok (one (value len xs) c₂)

unfoldable pub int_case : Cursor → Run Case
unfolding read_int
int_case c = do (v, c₁) ← read_int c; ok (one (int v) c₁)

unfoldable pub long_case : Cursor → Run Case
unfolding read_long
long_case c = do (v, c₁) ← read_long c; ok (one (long v) c₁)

unfoldable pub str_case : Cursor → Run Case
unfolding tpe_util_string_extract
str_case c = do (s, c₁) ← tpe_util_string_extract c; ok (one (str s) c₁)

-- The switch, for calls whose destinations are not NULL; `none` is a letter that it does not know.
-- The case 'H' compares pointers into the message and onto the stack, which is undefined; no call
-- in the program uses it.
unfoldable pub field : ℕ → Cursor → Option (Run Case)
unfolding skip_words array_case int_case long_case str_case read_oid read_order_arg read_reference
    read_arg_type6 read_build read_planet read_ship
field f c =
    if f == b'-'
    then some (ok (record { values = []; parsed = 1; pdata = skip_words 1 c }))
    else if f == b'H'
    then some undefined
    else if f == b'i'
    then some (int_case c)
    else if f == b'l'
    then some (long_case c)
    else if f == b's'
    then some (str_case c)
    else if f == b'a'
    then some (array_case ints read_int c)
    else if f == b'O'
    then some (array_case oids read_oid c)
    else if f == b'p'
    then some (ok (record { values = pointer c ∷ []; parsed = 0; pdata = c }))
    else if f == b'Q'
    then some (array_case order_args read_order_arg c)
    else if f == b'r'
    then some (array_case references read_reference c)
    else if f == b'6'
    then some (array_case options read_arg_type6 c)
    else if f == b'B'
    then some (array_case build read_build c)
    else if f == b'R'
    then some (array_case planet read_planet c)
    else if f == b'S'
    then some (array_case ships read_ship c)
    else none
