-- ===== src/Server/Format/Passes.antt =====
-- The two passes of `format_server` agree, and the second one fills the buffer of the first one's
-- size, no more and no less.
use mathlib.Core.List.{append_assoc}
use Prim.Native.String.{String}
use galaxie.Prelude.{
  ℕ, ◌+◌, ◌*◌, ◌/◌, ◌≡◌, ◌≤◌, refl, sym, ◌∙◌, ap, Option, none, some, List, [], ◌∷◌, ◌++◌, arith,
  length, length-append, length-drop, drop, take-length_append, drop-length_append, drop-add, ltb,
  Bool-cases, inl, inr, if◌then◌else◌,
}
use galaxie.Run.{Run, ok, ◌>>=◌, >>=_assoc, >>=_cong, >>=_ok, >>=-eq-ok}
use galaxie.Server.{Server}
use galaxie.Server.Send.{server_send}
use galaxie.Server.Format.{
  Arg, Chunk, chunk, write, format_server, body_of, format_body, server_send_format,
}
use galaxie.Server.Format.Chunks.{IsWhole, Fits, chunk-Fits}

-- The bytes that a format and its arguments stand for.
unfoldable pub wire : List ℕ → List Arg → Run (List ℕ)
wire [] args = ok []
wire (c ∷ format) args = chunk c args >>= λ k. wire format k.args >>= λ bytes. ok (k.bytes ++ bytes)

-- What a round writes, and what stands behind it.
wire_inv :
    (c : ℕ) (format : List ℕ) (args : List Arg) {bytes : List ℕ}
    → wire (c ∷ format) args ≡ ok bytes
    → (k : Chunk) × (chunk c args ≡ ok k)
      × (rest : List ℕ) × (wire format k.args ≡ ok rest)
      × (bytes ≡ k.bytes ++ rest)
unfolding wire
wire_inv c format args h =
    let (k, e, h') = >>=-eq-ok (chunk c args) _ h in
    let (rest, g, b) = >>=-eq-ok (wire format k.args) _ h' in (k, e, rest, g, cc)

nil_of_length : (xs : List ℕ) → length xs ≡ 0 → xs ≡ []
nil_of_length [] h = refl
nil_of_length (x ∷ xs) h = absurd (omega arith)

-- What a format stands for is a whole number of words.
wire_words :
    (format : List ℕ) (args : List Arg) {bytes : List ℕ}
    → IsWhole args
    → wire format args ≡ ok bytes
    → 4 * (length bytes / 4) ≡ length bytes
unfolding wire
wire_words [] args {bytes} w h = let e : [] ≡ bytes = cc in omega (arith, ap length e)
wire_words (c ∷ format) args w h =
    let (k, e, rest, g, b) = wire_inv c format args h in
    let fits : Fits k = chunk-Fits c args w e in
    omega (
      arith,
      fits.size,
      ap length b,
      length-append k.bytes rest,
      wire_words format k.args fits.whole g,
    )

-- The counting pass stops at the number of words of what the format stands for.
first_pass :
    (format : List ℕ) (args : List Arg) (pos : ℕ)
    → IsWhole args
    → format_server none pos format args
      ≡ (wire format args >>= λ bytes. ok (none, pos + length bytes / 4))
unfolding format_server wire write
first_pass [] args pos w = ground arith
first_pass (c ∷ format) args pos w =
    >>=_cong (chunk c args) (λ k e.
      let fits : Fits k = chunk-Fits c args w e in
      first_pass format k.args (pos + k.words) fits.whole
      ∙ >>=_cong (wire format k.args)
          (λ bytes g. ground (arith, length-append k.bytes bytes, fits.size))
      ∙ sym (>>=_assoc (wire format k.args) _ _))
    ∙ sym (>>=_assoc (chunk c args) _ _)

write_lem :
    (front back : List ℕ) (k : Chunk) (pos : ℕ)
    → length front ≡ 4 * pos
    → length k.bytes ≡ 4 * k.words
    → length k.bytes ≤ length back
    → write (some (front ++ back)) pos k
      ≡ ok (some ((front ++ k.bytes) ++ drop (length k.bytes) back))
unfolding write
write_lem front back k pos hf hk hb = ground (
  arith,
  length-append front back,
  take-length_append front back,
  drop-add (4 * pos) (length k.bytes) (front ++ back),
  drop-length_append front back,
  append_assoc front k.bytes (drop (length k.bytes) back),
)

-- The writing pass fills a buffer of that size from `pos` on.
second_pass :
    (format : List ℕ) (args : List Arg) (pos : ℕ) (front back : List ℕ) {bytes : List ℕ}
    → IsWhole args
    → wire format args ≡ ok bytes
    → length front ≡ 4 * pos
    → length back ≡ length bytes
    → format_server (some (front ++ back)) pos format args
      ≡ ok (some (front ++ bytes), pos + length bytes / 4)
unfolding format_server wire
second_pass [] args pos front [] w h hf hb = ground arith
second_pass [] args pos front (b ∷ back) {bytes} w h hf hb =
    let e : [] ≡ bytes = cc in absurd (omega (arith, ap length e))
second_pass (c ∷ format) args pos front back {bytes} w h hf hb =
    let (k, e, rest, g, b) = wire_inv c format args h in
    let fits : Fits k = chunk-Fits c args w e in
    rw
      (
        e,
        write_lem front back k pos hf fits.size
            (omega (arith, ap length b, length-append k.bytes rest)),
      )
      (second_pass format k.args (pos + k.words) (front ++ k.bytes) (drop (length k.bytes) back)
          fits.whole g (omega (arith, fits.size, length-append front k.bytes))
          (omega
            (arith, ap length b, length-append k.bytes rest, length-drop (length k.bytes) back))
        ∙ ground (arith, b, fits.size, append_assoc front k.bytes rest, length-append k.bytes rest))

pub format_body_lem :
    (malloc : ℕ → List ℕ)
    → ((n : ℕ) → length (malloc n) ≡ n)
    → (format : List ℕ) (args : List Arg) → IsWhole args
    → format_body malloc format args ≡ wire format args
unfolding format_body
format_body_lem malloc sized format args w =
    rw (first_pass format args 0 w, >>=_assoc)
      (>>=_cong (wire format args) (λ bytes g. fill bytes g) ∙ >>=_ok (wire format args))
  where
    fill :
        (bytes : List ℕ)
        → wire format args ≡ ok bytes
        → ((if ltb 0 (0 + length bytes / 4)
              then format_server (some (malloc (4 * (0 + length bytes / 4)))) 0 format args
              else ok (none, 0 + length bytes / 4))
            >>= λ out. ok (body_of out.0))
          ≡ ok bytes
    fill bytes g = elim (Bool-cases (ltb 0 (0 + length bytes / 4))) [
      | inl t ↦ rw (
        t,
        second_pass format args 0 [] (malloc (4 * (0 + length bytes / 4))) w g (omega arith)
            (omega (arith, sized (4 * (0 + length bytes / 4)), wire_words format args w g)),
      )
      | inr f ↦ rw (f, nil_of_length bytes (ground (arith, wire_words format args w g)))
    ]

-- Where `malloc` gives blocks of the size asked for, and raw arguments point to as many words as
-- they say, `server_send_format` sends what its format and its arguments stand for: the counting
-- pass finds the size of the writing pass, which fills the whole block and writes nowhere else. An
-- unknown format letter exits and an argument of a wrong type is undefined, before anything is sent.
pub server_send_format_lem :
    {C : Type 0} (malloc : ℕ → List ℕ)
    → ((n : ℕ) → length (malloc n) ≡ n)
    → (s : Server C) (type : String) (cb : Option C) (format : List ℕ) (args : List Arg)
    → IsWhole args
    → server_send_format malloc s type cb format args ≡ (
        wire format args >>= λ bytes. server_send s (record { type = type; cb = cb; body = bytes }))
unfolding server_send_format
server_send_format_lem malloc sized s type cb format args w =
    rw (format_body_lem malloc sized format args w) refl
