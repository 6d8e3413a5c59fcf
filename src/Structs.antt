-- ===== src/Structs.antt =====
-- `parse_block` and `extract_struct` of tpe_util.c, which fill a struct as a table of its fields
-- says. A position in the message is the number of bytes before it.
pub mod Tables
pub mod Scalars
pub mod Messages
mod Tests
use galaxie.Prelude.{
  ℕ, zero, suc, ◌+◌, ◌-◌, ◌^◌, Bool, true, false, ◌&&◌, Option, none, some, List, [], ◌∷◌, ◌==◌,
  if◌then◌else◌, leb, length, take, drop,
}
use galaxie.Run.{Run, ok, aborted, undefined, ◌>>=◌}
use galaxie.Wire.{is_negative}
use galaxie.Parse.{at, read_int, read_long, until_nul, has_nul}
use galaxie.Parse.Fields.{rounds}

-- `enum parsetype`, less its end and its flag.
pub data Kind : Type 0 where
  int long list string struct : Kind

-- A table of `struct parseitem`: `end` is the row of type PARSETYPE_END, and `no_end` the end of an
-- array that lacks it. A row has its kind, whether it has the flag PARSETYPE_ARRAYOF, its offset, the
-- offset of the count, the table of the structs in it, and whether `subsize` is at least 1.
pub data Items : Type 0 where
  end : Items
  no_end : Items
  item : Kind → Bool → ℕ → ℕ → Items → Bool → Items → Items

-- A struct that was zero, and what was written to it, latest first; and an array of structs.
mutual
  pub data Mem : Type 0 where
    blank : Mem
    put_int : ℕ → ℕ → Mem → Mem
    put_long : ℕ → ℕ → Mem → Mem
    put_str : ℕ → Option (List ℕ) → Mem → Mem
    put_structs : ℕ → Mems → Mem → Mem

  pub data Mems : Type 0 where
    no_more : Mems
    more : Mem → Mems → Mems

-- What is read, and the position behind it.
unfoldable pub extract_int : List ℕ → ℕ → Run (ℕ × ℕ)
unfolding read_int
extract_int buf pos = read_int (at (drop pos buf)) >>= λ r. ok (r.0, pos + 4)

unfoldable pub extract_long : List ℕ → ℕ → Run (ℕ × ℕ)
unfolding read_long
extract_long buf pos = read_long (at (drop pos buf)) >>= λ r. ok (r.0, pos + 8)

-- `talloc_strndup(NULL, src, len)`, where a negative length is larger than any string.
unfoldable pub strndup_at : List ℕ → ℕ → ℕ → Run (List ℕ)
unfolding until_nul has_nul
strndup_at buf pos len =
    if leb (pos + len) (length buf)
    then ok (until_nul (take len (drop pos buf)))
    else if has_nul (drop pos buf)
    then ok (until_nul (drop pos buf))
    else undefined

-- `src + len` for an int: a negative one leads back, at most to the start of the message.
unfoldable pub moved : ℕ → ℕ → Run ℕ
moved pos len =
    if is_negative len
    then if leb (2 ^ 32) (pos + len) then ok (pos + len - 2 ^ 32) else undefined
    else ok (pos + len)

unfoldable pub extract_string : List ℕ → ℕ → Run (Option (List ℕ) × ℕ)
unfolding extract_int strndup_at moved
extract_string buf pos = extract_int buf pos >>= λ r.
    if r.0 == 0
    then ok (none, r.1)
    else if leb 5000 r.0 && leb r.0 0x7fff_ffff
    then ok (none, r.1)
    else (strndup_at buf r.1 r.0 >>= λ s. moved r.1 r.0 >>= λ pos'. ok (some s, pos'))

-- `for (j = 0 ; j < count ; j ++)` over what one round does to the struct and the position.
unfoldable pub repeat : (ℕ → Mem → Run (Mem × ℕ)) → ℕ → ℕ → Mem → Run (Mem × ℕ)
repeat round zero pos mem = ok (mem, pos)
repeat round (suc count) pos mem = round pos mem >>= λ r. repeat round count r.1 r.0

-- `extract_struct`, where `parse` is the call of parse_block for one struct: with a `subsize` of 0
-- that call returns at once.
unfoldable extract_struct : (ℕ → Run (Mem × ℕ)) → Bool → ℕ → ℕ → Run (Mems × ℕ)
extract_struct parse sized zero pos = ok (no_more, pos)
extract_struct parse sized (suc count) pos = (if sized then parse pos else ok (blank, pos)) >>= λ r.
    extract_struct parse sized count r.1 >>= λ rest. ok (more r.0 rest.0, rest.1)

-- One row, for that many elements: every element of an array is written to the same address.
unfoldable pub fill_row :
    (ℕ → Run (Mem × ℕ)) → Kind → ℕ → ℕ → Bool → ℕ → List ℕ → ℕ → Mem → Run (Mem × ℕ)
unfolding extract_int extract_long extract_string repeat extract_struct
fill_row parse Kind.int off lenoff sized count buf =
    repeat (λ pos mem. extract_int buf pos >>= λ r. ok (put_int off r.0 mem, r.1)) count
fill_row parse Kind.long off lenoff sized count buf =
    repeat (λ pos mem. extract_long buf pos >>= λ r. ok (put_long off r.0 mem, r.1)) count
fill_row parse Kind.list off lenoff sized count buf = repeat (λ pos mem. ok (mem, pos)) count
fill_row parse Kind.string off lenoff sized count buf =
    repeat (λ pos mem. extract_string buf pos >>= λ r. ok (put_str off r.0 mem, r.1)) count
fill_row parse Kind.struct off lenoff sized zero buf = λ pos mem. ok (mem, pos)
fill_row parse Kind.struct off lenoff sized (suc count) buf = λ pos mem.
    extract_struct parse sized (suc count) pos >>= λ r.
    ok (put_structs off r.0 (put_int lenoff (suc count) mem), r.1)

-- `count`, and the position behind it.
unfoldable pub row_count : Bool → List ℕ → ℕ → Run (ℕ × ℕ)
unfolding extract_int
row_count false buf pos = ok (1, pos)
row_count true buf pos = extract_int buf pos

-- The loop over the table. Behind a table that has no end it reads what is no row.
unfoldable pub fill : Items → List ℕ → ℕ → Mem → Run (Mem × ℕ)
unfolding fill_row row_count
fill end buf pos mem = ok (mem, pos)
fill no_end buf pos mem = undefined
fill (item kind arrayof off lenoff sub sized items) buf pos mem =
    let parse = λ (p : ℕ). fill sub buf p blank in
    row_count arrayof buf pos >>= λ c.
    fill_row parse kind off lenoff sized (rounds c.0) buf c.1 mem >>= λ r. fill items buf r.1 r.0

-- `parse_block`, where `data` is `none` for NULL: the result is `none` for NULL, which the second
-- test returns wherever there is no struct to fill.
unfoldable pub parse_block : List ℕ → Items → Option Mem → ℕ → Run (Option (Mem × ℕ))
unfolding fill
parse_block buf items none zero = aborted
parse_block buf items none (suc size) = ok none
parse_block buf items (some dest) zero = ok none
parse_block buf items (some dest) (suc size) = fill items buf 0 dest >>= λ r. ok (some r)
