-- ===== src/Wire/Bytes.antt =====
-- What is read from the wire is what was written there.
use galaxie.Prelude.{
  ℕ, ◌+◌, ◌*◌, ◌/◌, ◌%◌, ◌^◌, ◌≤◌, ◌≡◌, refl, List, ◌++◌, arith, length, get_or-append,
}
use galaxie.Wire.{IsU32, IsU64, be32, of_be32, word, swap32, ntohll, le64, be64}

of_be32-be32 :
    (v : ℕ)
    → IsU32 v
    → of_be32 (v / 2 ^ 24 % 256) (v / 2 ^ 16 % 256) (v / 2 ^ 8 % 256) (v % 256) ≡ v
unfolding of_be32
of_be32-be32 v h = omega arith

pub length-be32 : (v : ℕ) → length (be32 v) ≡ 4
unfolding be32
length-be32 v = refl

pub length-be64 : (v : ℕ) → length (be64 v) ≡ 8
unfolding be64
length-be64 v = refl

-- A word in the front part of a buffer does not depend on what follows.
pub word-append : (xs ys : List ℕ) (k : ℕ) → 4 * k + 4 ≤ length xs → word (xs ++ ys) k ≡ word xs k
unfolding word of_be32
word-append xs ys k h = omega (
  arith,
  get_or-append xs ys (4 * k) 0 (omega arith),
  get_or-append xs ys (4 * k + 1) 0 (omega arith),
  get_or-append xs ys (4 * k + 2) 0 (omega arith),
  get_or-append xs ys (4 * k + 3) 0 (omega arith),
)

-- On a little-endian host the macro `ntohll` undoes itself on every 64-bit word, and a word that
-- it turned round lies in memory in wire order.
pub ntohll-ntohll :
    (x : ℕ) → IsU64 x → (ntohll swap32 (ntohll swap32 x) ≡ x) × (le64 (ntohll swap32 x) ≡ be64 x)
unfolding ntohll swap32 le64 be64
ntohll-ntohll x h = (omega arith, ground arith)
