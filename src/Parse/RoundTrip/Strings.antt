-- ===== src/Parse/RoundTrip/Strings.antt =====
-- Numbers and padded strings on the wire, one at a time.
use mathlib.Core.List.{append_assoc}
use galaxie.Prelude.{
  ℕ, zero, suc, ◌-◌, ◌≤◌, ◌<◌, ◌≡◌, ◌≢◌, refl, ap, List, [], ◌∷◌, ◌++◌, arith, length, All, take,
  replicate, take-length_append, drop-length_append, length-append,
}
use galaxie.Run.{ok}
use galaxie.Wire.{IsU32, IsU64, be32, be64}
use galaxie.Server.Format.{strncpy, padded, str_chunk}
use galaxie.Server.Format.Chunks.{length-strncpy, padded_bounds}
use galaxie.Parse.{at, read_int, read_long, until_nul, copy_string, tpe_util_string_extract}

pub read_int-be32 :
    (v : ℕ) (more : List ℕ) → IsU32 v → read_int (at (be32 v ++ more)) ≡ ok (v, at more)
unfolding read_int be32
read_int-be32 v more h = ap (λ n. ok (n, at more)) (omega arith)

pub read_long-be64 :
    (v : ℕ) (more : List ℕ) → IsU64 v → read_long (at (be64 v ++ more)) ≡ ok (v, at more)
unfolding read_long be64
read_long-be64 v more h = ap (λ n. ok (n, at more)) (omega arith)

until_nul-replicate : (k : ℕ) → until_nul (replicate k 0) ≡ []
unfolding until_nul
until_nul-replicate zero = refl
until_nul-replicate (suc k) = refl

pub until_nul-append :
    (s : List ℕ) (k : ℕ) → All (λ b. b ≢ 0) s → until_nul (s ++ replicate k 0) ≡ s
unfolding until_nul
until_nul-append [] k h = until_nul-replicate k
until_nul-append (b ∷ s) k h = ground (arith, h.0, until_nul-append s k h.1)

pub take_all : (n : ℕ) (s : List ℕ) → length s ≤ n → take n s ≡ s
take_all zero [] h = refl
take_all zero (b ∷ s) h = absurd (omega arith)
take_all (suc n) [] h = refl
take_all (suc n) (b ∷ s) h = ap (λ r. b ∷ r) (take_all n s (omega arith))

-- The padding of a string is not part of it.
until_nul-strncpy :
    (s : List ℕ) (n : ℕ) → All (λ b. b ≢ 0) s → length s ≤ n → until_nul (strncpy s n) ≡ s
unfolding strncpy
until_nul-strncpy s n h l = rw (take_all n s l) (until_nul-append s (n - length s) h)

copy_string-strncpy :
    (s more : List ℕ) (n : ℕ)
    → All (λ b. b ≢ 0) s
    → length s ≤ n
    → copy_string n (strncpy s n ++ more) ≡ ok (s, at more)
unfolding copy_string
copy_string-strncpy s more n h l = ground (
  arith,
  length-strncpy s n l,
  length-append (strncpy s n) more,
  take-length_append (strncpy s n) more,
  drop-length_append (strncpy s n) more,
  until_nul-strncpy s n h l,
)

-- A word and then that many bytes, of which the pad is dropped.
pub extract-padded :
    (s more : List ℕ) (n : ℕ)
    → All (λ b. b ≢ 0) s
    → length s ≤ n
    → n < 2000
    → tpe_util_string_extract (at (be32 n ++ (strncpy s n ++ more))) ≡ ok (s, at more)
unfolding tpe_util_string_extract
extract-padded s more n h l b =
    rw (read_int-be32 n (strncpy s n ++ more) (omega arith))
      (ground (arith, copy_string-strncpy s more n h l))

str_chunk_bytes :
    (b : ℕ) (s : List ℕ)
    → (str_chunk (b ∷ s) []).bytes
      ≡ be32 (padded (suc (length s))) ++ strncpy (b ∷ s) (padded (suc (length s)))
unfolding str_chunk
str_chunk_bytes b s = ground arith

pub extract-str_chunk :
    (s more : List ℕ)
    → All (λ b. b ≢ 0) s
    → length s < 1997
    → tpe_util_string_extract (at ((str_chunk s []).bytes ++ more)) ≡ ok (s, at more)
extract-str_chunk [] more h l = unfold tpe_util_string_extract be32 str_chunk in ground arith
extract-str_chunk (b ∷ s) more h l =
    rw
      (
        str_chunk_bytes b s,
        append_assoc (be32 (padded (suc (length s)))) (strncpy (b ∷ s) (padded (suc (length s))))
            more,
      )
      (extract-padded (b ∷ s) more (padded (suc (length s))) h
        (omega (arith, padded_bounds (suc (length s))))
        (omega (arith, padded_bounds (suc (length s)))))
