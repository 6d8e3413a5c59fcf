-- ===== src/Structs/Tests.antt =====
-- The theorems on tables at small messages.
use mathlib.Core.Bool.{true, false}
use galaxie.Prelude.{◌+◌, ◌≡◌, refl, arith, List, [], ◌∷◌, ◌++◌, length}
use galaxie.Run.{ok}
use galaxie.Wire.{of_be32}
use galaxie.Parse.{read_int}
use galaxie.Structs.{
  blank, put_int, end, item, Kind, fill, fill_row, row_count, repeat, extract_int,
}
use galaxie.Structs.Scalars.{Scalar, int, long, text, all_bytes, table_of, written, fill-all_bytes}

abbrev fields : List Scalar
fields = int 7 ∷ text (b'A' ∷ b'B' ∷ []) ∷ long 4294967296 ∷ []

-- Three bytes before the struct, and one behind it.
fill-all_bytes_example :
    fill (table_of 0 fields) (1 ∷ 2 ∷ 3 ∷ (all_bytes fields ++ (9 ∷ []))) 3 blank
    ≡ ok (written 0 fields blank, 3 + length (all_bytes fields))
fill-all_bytes_example =
    fill-all_bytes fields 0 (1 ∷ 2 ∷ 3 ∷ (all_bytes fields ++ (9 ∷ []))) 3 blank (9 ∷ [])
      (
        omega arith,
        ((omega arith, omega arith, (omega arith, (omega arith, tt))), (omega arith, tt)),
      )
      refl

-- An array of ints leaves the last one only: each is written to the same address.
last_of_array :
    fill
      (item Kind.int true 4 3 end false end)
      (0 ∷ 0 ∷ 0 ∷ 2 ∷ 0 ∷ 0 ∷ 0 ∷ 5 ∷ 0 ∷ 0 ∷ 0 ∷ 6 ∷ [])
      0
      blank
    ≡ ok (put_int 4 6 (put_int 4 5 blank), 12)
unfolding fill fill_row row_count repeat extract_int read_int of_be32
last_of_array = refl
