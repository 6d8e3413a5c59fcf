-- ===== src/Wire.antt =====
-- The byte order of the protocol: server.h (ntohll, htonll), and the reads and writes of 32 and
-- 64 bit words that tpe_util.c and server.c make through ntohl, htonl and memcpy.
-- A byte is a number below 256; a word is its bit pattern, a number below 2 ^ 32 or 2 ^ 64.
pub mod Bytes
mod Tests
use galaxie.Prelude.{ℕ, ◌+◌, ◌*◌, ◌/◌, ◌%◌, ◌^◌, ◌<◌, List, [], ◌∷◌, ◌++◌, get_or, ltb, Bool}

abbrev IsByte : ℕ → Type 0
IsByte b = b < 256

abbrev pub IsU32 : ℕ → Type 0
IsU32 v = v < 2 ^ 32

abbrev pub IsU64 : ℕ → Type 0
IsU64 v = v < 2 ^ 64

-- A bit pattern of 32 bits that stands for a negative int.
abbrev pub is_negative : ℕ → Bool
is_negative v = ltb 0x7fff_ffff v

-- The bit pattern of the int -1, and `UINT64_MAX`.
abbrev pub minus_one : ℕ
minus_one = 0xffff_ffff

abbrev pub uint64_max : ℕ
uint64_max = 0xffff_ffff_ffff_ffff

-- What `htonl(v)` leaves in memory: the most significant byte first.
unfoldable pub be32 : ℕ → List ℕ
be32 v = v / 2 ^ 24 % 256 ∷ v / 2 ^ 16 % 256 ∷ v / 2 ^ 8 % 256 ∷ v % 256 ∷ []

-- The number that `ntohl` makes of four bytes in memory.
unfoldable pub of_be32 : ℕ → ℕ → ℕ → ℕ → ℕ
of_be32 a b c d = a * 2 ^ 24 + b * 2 ^ 16 + c * 2 ^ 8 + d

-- `ntohl(header[k])`: word number `k` of a buffer.
unfoldable pub word : List ℕ → ℕ → ℕ
unfolding of_be32
word bs k =
    of_be32 (get_or bs (4 * k) 0) (get_or bs (4 * k + 1) 0) (get_or bs (4 * k + 2) 0)
      (get_or bs (4 * k + 3) 0)

-- `ntohl` of a little-endian host, as a function on words.
unfoldable pub swap32 : ℕ → ℕ
unfolding of_be32
swap32 v = of_be32 (v % 256) (v / 2 ^ 8 % 256) (v / 2 ^ 16 % 256) (v / 2 ^ 24 % 256)

-- The macro `ntohll`, over the host's `ntohl`; `htonll` is the same macro.
unfoldable pub ntohll : (ℕ → ℕ) → ℕ → ℕ
ntohll ntohl x = ntohl (x % 2 ^ 32) * 2 ^ 32 + ntohl (x / 2 ^ 32 % 2 ^ 32)

-- The bytes of a 64-bit word in the memory of a little-endian host, lowest first.
unfoldable pub le64 : ℕ → List ℕ
le64 v =
    v % 256
    ∷ v / 2 ^ 8 % 256
    ∷ v / 2 ^ 16 % 256
    ∷ v / 2 ^ 24 % 256
    ∷ v / 2 ^ 32 % 256
    ∷ v / 2 ^ 40 % 256
    ∷ v / 2 ^ 48 % 256
    ∷ v / 2 ^ 56 % 256
    ∷ []

-- The bytes of a 64-bit word on the wire.
unfoldable pub be64 : ℕ → List ℕ
unfolding be32
be64 v = be32 (v / 2 ^ 32 % 2 ^ 32) ++ be32 (v % 2 ^ 32)
