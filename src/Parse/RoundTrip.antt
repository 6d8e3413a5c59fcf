-- ===== src/Parse/RoundTrip.antt =====
-- What `format_server` of server.c writes, `tpe_util_parse_packet` of tpe_util.c reads back.
pub mod Strings
use mathlib.Core.List.{append_assoc, append-nil}
use galaxie.Prelude.{
  ℕ, ◌+◌, ◌^◌, ◌<◌, ◌≡◌, ◌≢◌, refl, ◌∙◌, ap, some, List, [], ◌∷◌, ◌++◌, map, arith, length, All,
}
use galaxie.Run.{ok, ◌>>=◌}
use galaxie.Wire.{IsU32, IsU64, be32, be64}
use galaxie.Server.Format.{Arg, str_chunk, chunk}
use galaxie.Server.Format.Passes.{wire}
use galaxie.Parse.{at}
use galaxie.Parse.Fields.{Value, Case, one, field}
use galaxie.Parse.Packet.{Parsed, parse_from, tpe_util_parse_packet}
use galaxie.Parse.RoundTrip.Strings.{read_int-be32, read_long-be64, extract-str_chunk}

-- A number, a long number or a string that both sides know.
pub data Item : Type 0 where
  int : ℕ → Item
  long : ℕ → Item
  str : List ℕ → Item

abbrev pub letter : Item → ℕ
letter (int v) = b'i'
letter (long v) = b'l'
letter (str s) = b's'

abbrev pub arg : Item → Arg
arg (int v) = Arg.int v
arg (long v) = Arg.long v
arg (str s) = Arg.str (some s)

abbrev pub value : Item → Value
value (int v) = Value.int v
value (long v) = Value.long v
value (str s) = Value.str s

-- The numbers fit their words. A string has no NUL inside, and its length is one that the reader's
-- assertion lets pass after padding.
abbrev pub Fits : Item → Type 0
Fits (int v) = IsU32 v
Fits (long v) = IsU64 v
Fits (str s) = All (λ b. b ≢ 0) s × (length s < 1997)

encoded : Item → List ℕ
encoded (int v) = be32 v
encoded (long v) = be64 v
encoded (str s) = (str_chunk s []).bytes

words : Item → ℕ
words (int v) = 1
words (long v) = 2
words (str s) = (str_chunk s []).words

chunk-encoded :
    (i : Item) (args : List Arg)
    → chunk (letter i) (arg i ∷ args)
      ≡ ok (record { bytes = encoded i; words = words i; args = args })
unfolding chunk encoded words
chunk-encoded (int v) args = refl
chunk-encoded (long v) args = refl
chunk-encoded (str s) args = unfold str_chunk in ground arith

field-encoded :
    (i : Item) (more : List ℕ)
    → Fits i
    → field (letter i) (at (encoded i ++ more)) ≡ some (ok (one (value i) (at more)))
unfolding encoded
field-encoded (int v) more h = unfold field in rw (read_int-be32 v more h)
field-encoded (long v) more h = unfold field in rw (read_long-be64 v more h)
field-encoded (str s) more (hs, hl) = unfold field in rw (extract-str_chunk s more hs hl)

abbrev all_encoded : List Item → List ℕ
all_encoded [] = []
all_encoded (i ∷ items) = encoded i ++ all_encoded items

wire-all_encoded :
    (items : List Item) → wire (map letter items) (map arg items) ≡ ok (all_encoded items)
unfolding wire
wire-all_encoded [] = refl
wire-all_encoded (i ∷ items) = rw (chunk-encoded i (map arg items)) (rw (wire-all_encoded items))

-- A round whose case returns, over the rest of the loop.
parse_from_step :
    (f : ℕ) (format bytes : List ℕ) {k : Case}
    → field f (at bytes) ≡ some (ok k)
    → parse_from (f ∷ format) (at bytes) ≡ (
        parse_from format k.pdata >>= λ r.
        ok (record { count = k.parsed + r.count; values = k.values ++ r.values; pdata = r.pdata }))
unfolding parse_from
parse_from_step f format bytes e = rw (e, parse_from)

parse_from-all_encoded :
    (items : List Item) (more : List ℕ)
    → All Fits items
    → parse_from (map letter items) (at (all_encoded items ++ more))
      ≡ ok (record { count = length items; values = map value items; pdata = at more })
parse_from-all_encoded [] more h = unfold parse_from in refl
parse_from-all_encoded (i ∷ items) more (hi, hs) =
    rw
      (
        append_assoc (encoded i) (all_encoded items) more,
        parse_from_step (letter i) (map letter items) _
            (field-encoded i (all_encoded items ++ more) hi),
        parse_from-all_encoded items more hs,
      )
      (ground arith)

-- A list of items that `format_server` is given one by one comes back from
-- `tpe_util_parse_packet` under the same format: as many values as there are items, each with its
-- item's value, and the pointer at what follows them. The numbers fit their words, and the strings
-- have no NUL inside and fewer than 1997 bytes.
pub parse-wire :
    (items : List Item) (more : List ℕ)
    → All Fits items
    → (wire (map letter items) (map arg items) >>= λ bytes.
        tpe_util_parse_packet (bytes ++ more) (map letter items))
      ≡ ok (record { count = length items; values = map value items; pdata = at more })
unfolding tpe_util_parse_packet
parse-wire items more h = rw (wire-all_encoded items) (parse_from-all_encoded items more h)
