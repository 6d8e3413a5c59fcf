-- ===== src/Server/Format/Chunks.antt =====
-- A round of `format_server` advances by the number of words that it writes.
use galaxie.Prelude.{
  ℕ, ◌+◌, ◌*◌, ◌-◌, ◌/◌, ◌≡◌, none, some, List, [], ◌∷◌, arith, length, length-append,
  length-replicate, length-take, ◌≤◌, take, replicate,
}
use galaxie.Run.{ok}
use galaxie.Wire.{be32}
use galaxie.Wire.Bytes.{length-be32, length-be64}
use galaxie.Server.Format.{
  Arg, int, long, str, raw, Chunk, strncpy, padded, str_chunk, int_case, long_case, str_case,
  raw_case, chunk,
}

-- A raw argument points to as many words as it says.
abbrev pub IsWhole : List Arg → Type 0
IsWhole [] = Unit
IsWhole (raw len bytes ∷ args) = (length bytes ≡ 4 * len) × IsWhole args
IsWhole (_ ∷ args) = IsWhole args

pub length-strncpy : (s : List ℕ) (n : ℕ) → length s ≤ n → length (strncpy s n) ≡ n
unfolding strncpy
length-strncpy s n h = omega (
  arith,
  length-append (take n s) (replicate (n - length s) 0),
  length-take n s,
  length-replicate {A = ℕ} (n - length s) 0,
)

pub padded_bounds : (len : ℕ) → (len ≤ padded len) × (padded len ≤ len + 3)
unfolding padded
padded_bounds len = ground arith

padded_words : (len : ℕ) → (4 * (padded len / 4) ≡ padded len) × (len ≤ padded len)
unfolding padded
padded_words len = ground arith

-- A round adds to `pos` the number of words that it writes.
pub record Fits (k : Chunk) : Type 0 where
  pub size : length k.bytes ≡ 4 * k.words
  pub whole : IsWhole k.args

str_chunk-Fits : (s : List ℕ) (args : List Arg) → IsWhole args → Fits (str_chunk s args)
unfolding str_chunk
str_chunk-Fits s args w = ground (
  arith,
  padded_words (length s),
  length-strncpy s (padded (length s)),
  length-be32 0,
  length-be32 (padded (length s)),
  length-append (be32 (padded (length s))) (strncpy s (padded (length s))),
)

int_case-Fits : (args : List Arg) {k : Chunk} → IsWhole args → int_case args ≡ ok k → Fits k
unfolding int_case
int_case-Fits [] w h = cc
int_case-Fits (int v ∷ args) w h = ground (arith, length-be32 v)
int_case-Fits (_ ∷ args) w h = cc

long_case-Fits : (args : List Arg) {k : Chunk} → IsWhole args → long_case args ≡ ok k → Fits k
unfolding long_case
long_case-Fits [] w h = cc
long_case-Fits (long v ∷ args) w h = ground (arith, length-be64 v)
long_case-Fits (_ ∷ args) w h = cc

str_case-Fits : (args : List Arg) {k : Chunk} → IsWhole args → str_case args ≡ ok k → Fits k
unfolding str_case
str_case-Fits [] w h = cc
str_case-Fits (str none ∷ args) w h = ground (arith, length-be32 0)
str_case-Fits (str (some s) ∷ args) w h = ground (arith, str_chunk-Fits s args w)
str_case-Fits (_ ∷ args) w h = cc

raw_case-Fits : (args : List Arg) {k : Chunk} → IsWhole args → raw_case args ≡ ok k → Fits k
unfolding raw_case
raw_case-Fits [] w h = cc
raw_case-Fits (raw len bytes ∷ args) w h = ground (arith, length-take (4 * len) bytes)
raw_case-Fits (_ ∷ args) w h = cc

pub chunk-Fits : (c : ℕ) (args : List Arg) {k : Chunk} → IsWhole args → chunk c args ≡ ok k → Fits k
unfolding chunk
chunk-Fits c args {k} w h = ground (
  arith,
  length-be32 0,
  int_case-Fits args {k = k} w,
  long_case-Fits args {k = k} w,
  str_case-Fits args {k = k} w,
  raw_case-Fits args {k = k} w,
)
