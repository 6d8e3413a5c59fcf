-- ===== src/Structs/Scalars.antt =====
-- Structs of numbers and strings, written one after the other and parsed by a table.
use mathlib.Core.List.{append_assoc, append-nil}
use galaxie.Prelude.{
  ℕ, suc, ◌+◌, ◌<◌, ◌≡◌, ◌≢◌, refl, sym, ap, ◌∙◌, arith, true, false, some, List, [], ◌∷◌, ◌++◌,
  All, length, drop, leb, length-append, length-drop, drop-add, drop-length_append,
  take-length_append,
}
use galaxie.Run.{Run, ok}
use galaxie.Wire.{IsU32, IsU64, be32, be64}
use galaxie.Wire.Bytes.{length-be32, length-be64}
use galaxie.Parse.{until_nul}
use galaxie.Parse.RoundTrip.Strings.{read_int-be32, read_long-be64, until_nul-append}
use galaxie.Structs.{
  Kind, Items, end, item, Mem, put_int, put_long, put_str, extract_int, extract_long,
  extract_string, strndup_at, moved, fill, fill_row, row_count, repeat,
}

pub data Scalar : Type 0 where
  int : ℕ → Scalar
  long : ℕ → Scalar
  text : List ℕ → Scalar

-- The bytes in the message: a string has its length in front, and no padding.
abbrev scalar_bytes : Scalar → List ℕ
scalar_bytes (int v) = be32 v
scalar_bytes (long v) = be64 v
scalar_bytes (text s) = be32 (length s) ++ s

abbrev pub all_bytes : List Scalar → List ℕ
all_bytes [] = []
all_bytes (v ∷ vs) = scalar_bytes v ++ all_bytes vs

-- A word, a long word, and a string that is not empty, is shorter than 5000 bytes and has no NUL.
abbrev IsScalar : Scalar → Type 0
IsScalar (int v) = IsU32 v
IsScalar (long v) = IsU64 v
IsScalar (text s) = (0 < length s) × (length s < 5000) × All (λ b. b ≢ 0) s

-- The table of a struct with these fields, from a number on, and what a parse by it writes.
abbrev scalar_kind : Scalar → Kind
scalar_kind (int v) = Kind.int
scalar_kind (long v) = Kind.long
scalar_kind (text s) = Kind.string

abbrev pub table_of : ℕ → List Scalar → Items
table_of off [] = end
table_of off (v ∷ vs) = item (scalar_kind v) false off 0 end false (table_of (suc off) vs)

abbrev written_one : ℕ → Scalar → Mem → Mem
written_one off (int v) mem = put_int off v mem
written_one off (long v) mem = put_long off v mem
written_one off (text s) mem = put_str off (some s) mem

abbrev pub written : ℕ → List Scalar → Mem → Mem
written off [] mem = mem
written off (v ∷ vs) mem = written (suc off) vs (written_one off v mem)

extract_int_lem :
    (buf : List ℕ) (pos v : ℕ) (rest : List ℕ)
    → IsU32 v
    → drop pos buf ≡ be32 v ++ rest
    → extract_int buf pos ≡ ok (v, pos + 4)
unfolding extract_int
extract_int_lem buf pos v rest h d = rw (d, read_int-be32 v rest h) refl

extract_long_lem :
    (buf : List ℕ) (pos v : ℕ) (rest : List ℕ)
    → IsU64 v
    → drop pos buf ≡ be64 v ++ rest
    → extract_long buf pos ≡ ok (v, pos + 8)
unfolding extract_long
extract_long_lem buf pos v rest h d = rw (d, read_long-be64 v rest h) refl

behind :
    (buf : List ℕ) (pos : ℕ) (bytes rest : List ℕ)
    → drop pos buf ≡ bytes ++ rest
    → drop (pos + length bytes) buf ≡ rest
behind buf pos bytes rest d =
    drop-add pos (length bytes) buf ∙ ap (drop (length bytes)) d ∙ drop-length_append bytes rest

strndup_at_lem :
    (buf : List ℕ) (pos : ℕ) (s rest : List ℕ)
    → All (λ b. b ≢ 0) s
    → 0 < length s
    → drop pos buf ≡ s ++ rest
    → strndup_at buf pos (length s) ≡ ok s
unfolding strndup_at
strndup_at_lem buf pos s rest h l d =
    let fits : leb (pos + length s) (length buf) ≡ true =
      ground (arith, length-drop pos buf, ap length d, length-append s rest) in
    rw (fits, d, take-length_append s rest)
      (ap ok (sym (ap until_nul (append-nil s)) ∙ until_nul-append s 0 h))

extract_string_lem :
    (buf : List ℕ) (pos : ℕ) (s rest : List ℕ)
    → IsScalar (text s)
    → drop pos buf ≡ be32 (length s) ++ (s ++ rest)
    → extract_string buf pos ≡ ok (some s, pos + 4 + length s)
unfolding extract_string moved
extract_string_lem buf pos s rest (l, m, h) d =
    let d' : drop (pos + 4) buf ≡ s ++ rest =
      ap (λ n. drop (pos + n) buf) (sym (length-be32 (length s)))
      ∙ behind buf pos (be32 (length s)) (s ++ rest) d in
    rw
      (
        extract_int_lem buf pos (length s) (s ++ rest) (omega arith) d,
        strndup_at_lem buf (pos + 4) s rest h l d',
      )
      (ground arith)

row :
    (parse : ℕ → Run (Mem × ℕ)) (v : Scalar) (off : ℕ) (buf : List ℕ) (pos : ℕ) (mem : Mem)
    (rest : List ℕ)
    → IsScalar v
    → drop pos buf ≡ scalar_bytes v ++ rest
    → fill_row parse (scalar_kind v) off 0 false 1 buf pos mem
      ≡ ok (written_one off v mem, pos + length (scalar_bytes v))
unfolding fill_row repeat
row parse (int v) off buf pos mem rest h d =
    rw (extract_int_lem buf pos v rest h d)
      (ap (λ n. ok (put_int off v mem, pos + n)) (sym (length-be32 v)))
row parse (long v) off buf pos mem rest h d =
    rw (extract_long_lem buf pos v rest h d)
      (ap (λ n. ok (put_long off v mem, pos + n)) (sym (length-be64 v)))
row parse (text s) off buf pos mem rest h d =
    rw (extract_string_lem buf pos s rest h (d ∙ append_assoc (be32 (length s)) s rest)) (
      ap (λ n. ok (put_str off (some s) mem, n))
        (omega (arith, length-append (be32 (length s)) s, length-be32 (length s))))

-- The fields of a struct, written one after the other wherever in the message, come back: the
-- parse by the struct's table writes each to its place and stops behind them. The numbers fit
-- their words, and the strings have from 1 to 4999 bytes and no NUL.
pub fill-all_bytes :
    (vs : List Scalar) (off : ℕ) (buf : List ℕ) (pos : ℕ) (mem : Mem) (more : List ℕ)
    → All IsScalar vs
    → drop pos buf ≡ all_bytes vs ++ more
    → fill (table_of off vs) buf pos mem ≡ ok (written off vs mem, pos + length (all_bytes vs))
unfolding fill row_count
fill-all_bytes [] off buf pos mem more h d = ap (λ n. ok (mem, n)) (omega arith)
fill-all_bytes (v ∷ vs) off buf pos mem more (h, hs) d =
    let d' = d ∙ append_assoc (scalar_bytes v) (all_bytes vs) more in
    rw
      (
        row _ v off buf pos mem (all_bytes vs ++ more) h d',
        fill-all_bytes vs (suc off) buf (pos + length (scalar_bytes v)) (written_one off v mem) more
            hs (behind buf pos (scalar_bytes v) (all_bytes vs ++ more) d'),
      )
      (ap (λ n. ok (written (suc off) vs (written_one off v mem), n))
        (omega (arith, length-append (scalar_bytes v) (all_bytes vs))))
