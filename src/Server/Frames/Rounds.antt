-- ===== src/Server/Frames/Rounds.antt =====
-- One round of the loop of `server_receive`, with more bytes behind it.
use galaxie.Prelude.{
  ℕ, ◌+◌, ◌%◌, ◌^◌, ◌≤◌, ◌<◌, ◌≡◌, refl, ◌∙◌, ◌⊎◌, inl, inr, Bool, true, false, List, ◌++◌, arith,
  length, length-append, length-drop, take, drop, take-append, drop-append, ap,
}
use galaxie.Wire.{word}
use galaxie.Wire.Bytes.{word-append}
use galaxie.Server.{Packet}
use galaxie.Server.Frames.{Next, partial, invalid, packet, next_packet, next, is_refused}

pub Next-cases :
    (n : Next)
    → (n ≡ partial) ⊎ (n ≡ invalid) ⊎ ((p : Packet) × (rest : List ℕ) × (n ≡ packet p rest))
Next-cases partial = inl refl
Next-cases invalid = inr (inl refl)
Next-cases (packet p rest) = inr (inr (p, rest, refl))

-- A packet that passes the assertions takes bytes from the front.
pub next_shrinks :
    (start : List ℕ) {p : Packet} {rest : List ℕ}
    → next start ≡ packet p rest
    → is_refused p ≡ false
    → length rest < length start
unfolding next is_refused
next_shrinks start h a = ground (arith, length-drop ((word start 3 + 16) % 2 ^ 32) start)

-- The body of a packet that is all there is the same with more bytes behind it.
take_body-append :
    (start more : List ℕ) (len : ℕ)
    → len + 16 ≤ length start
    → take len (drop 16 (start ++ more)) ≡ take len (drop 16 start)
take_body-append start more len h =
    ap (take len) (drop-append 16 start more (omega arith))
    ∙ take-append len (drop 16 start) more (omega (arith, length-drop 16 start))

next_packet-append :
    (proto : ℕ) (start more : List ℕ) {p : Packet} {rest : List ℕ}
    → next_packet proto start ≡ packet p rest
    → 16 < length start
    → is_refused p ≡ false
    → next_packet proto (start ++ more) ≡ packet p (rest ++ more)
unfolding next_packet is_refused
next_packet-append proto start more {p} {rest} h l a = ground (
  arith,
  length-append start more,
  word-append start more 1,
  word-append start more 2,
  word-append start more 3,
  take_body-append start more (word start 3),
  drop-append ((word start 3 + 16) % 2 ^ 32) start more,
)

-- More bytes do not change a round that finds a packet or a wrong magic.
pub next-append_packet :
    (start more : List ℕ) {p : Packet} {rest : List ℕ}
    → next start ≡ packet p rest
    → is_refused p ≡ false
    → next (start ++ more) ≡ packet p (rest ++ more)
unfolding next
next-append_packet start more {p} {rest} h a = ground (
  arith,
  length-append start more,
  word-append start more 0,
  next_packet-append 3 start more {p = p} {rest = rest},
  next_packet-append 4 start more {p = p} {rest = rest},
)

pub next-append_invalid :
    (start more : List ℕ) → next start ≡ invalid → next (start ++ more) ≡ invalid
unfolding next
next-append_invalid start more h =
    ground (arith, length-append start more, word-append start more 0)

-- The round finds a packet that the assertions refuse.
abbrev pub refused : Next → Bool
refused partial = false
refused invalid = false
refused (packet p rest) = is_refused p

pub next-append_refused :
    (start more : List ℕ) → refused (next start) ≡ true → refused (next (start ++ more)) ≡ true
unfolding next is_refused
next-append_refused start more h = ground (
  arith,
  length-append start more,
  word-append start more 0,
  word-append start more 1,
  word-append start more 2,
  word-append start more 3,
)
