-- ===== src/Parse.antt =====
-- tpe_util.c: `tpe_util_string_extract` and `tpe_util_parse_packet`, which takes the body of a
-- message apart as a format string says.
-- A pointer into a message is the bytes from there to the message's end; one behind the end is
-- `past`. A read outside the message is undefined.
pub mod Fields
pub mod Packet
pub mod RoundTrip
mod Tests
use galaxie.Prelude.{
  ℕ, zero, suc, ◌+◌, ◌*◌, ◌-◌, ◌^◌, Option, none, some, List, [], ◌∷◌, length, take, drop, leb, ltb,
  ◌==◌, if◌then◌else◌, Bool, true, false, ◌||◌,
}
use galaxie.Run.{Run, ok, aborted, undefined, ◌>>=◌}
use galaxie.Wire.{of_be32, is_negative}

pub data Cursor : Type 0 where
  at : List ℕ → Cursor
  past : Cursor

-- `ntohl(*idata ++)`
unfoldable pub read_int : Cursor → Run (ℕ × Cursor)
unfolding of_be32
read_int (at (a ∷ b ∷ c ∷ d ∷ rest)) = ok (of_be32 a b c d, at rest)
read_int _ = undefined

-- `ntohll` of eight bytes: see Wire.Bytes.
unfoldable pub read_long : Cursor → Run (ℕ × Cursor)
unfolding read_int
read_long c = do (high, c₁) ← read_int c; (low, c₂) ← read_int c₁; ok (high * 2 ^ 32 + low, c₂)

-- `idata += n` for words that are not read.
unfoldable pub skip_words : ℕ → Cursor → Cursor
skip_words n past = past
skip_words n (at bytes) = if ltb (length bytes) (4 * n) then past else at (drop (4 * n) bytes)

-- The bytes of a C string: those before the first NUL.
unfoldable pub until_nul : List ℕ → List ℕ
until_nul [] = []
until_nul (b ∷ bs) = let rest = until_nul bs in if b == 0 then [] else b ∷ rest

unfoldable pub has_nul : List ℕ → Bool
has_nul [] = false
has_nul (b ∷ bs) = b == 0 || has_nul bs

-- `strncpy(buf, src + 4, len)` stops at a NUL, so that a length which runs past the message is
-- harmless where a NUL stands before its end.
unfoldable pub copy_string : ℕ → List ℕ → Run (List ℕ × Cursor)
unfolding until_nul has_nul
copy_string len bytes =
    if leb len (length bytes)
    then ok (until_nul (take len bytes), at (drop len bytes))
    else if has_nul bytes
    then ok (until_nul bytes, past)
    else undefined

-- The bytes of the new string before its NUL, and the pointer behind it. `len` is an int: a
-- negative one passes the assertion, and is then the number of bytes to copy.
unfoldable pub tpe_util_string_extract : Cursor → Run (List ℕ × Cursor)
unfolding read_int copy_string
tpe_util_string_extract c = do
  (len, rest) ← read_int c
  if is_negative len
      then undefined
      else if leb 2000 len
      then aborted
      else elim rest [ at bytes ↦ copy_string len bytes | past ↦ undefined ]

-- `for (i = 0 ; i < n ; i ++)` over an array of the message.
unfoldable pub read_many :
    {A : Type 0} → (Cursor → Run (A × Cursor)) → ℕ → Cursor → Run (List A × Cursor)
read_many read zero c = ok ([], c)
read_many read (suc n) c = do (x, c₁) ← read c; (xs, c₂) ← read_many read n c₁; ok (x ∷ xs, c₂)
