-- ===== src/Server/Format.antt =====
-- `format_server` and `server_send_format` of server.c: a format string and its arguments become
-- the body of a packet, in two passes, of which the first one counts.
pub mod Chunks
pub mod Passes
use Prim.Native.String.{String}
use galaxie.Prelude.{
  ℕ, ◌+◌, ◌*◌, ◌-◌, ◌/◌, ◌%◌, Option, none, some, List, [], ◌∷◌, ◌++◌, length, take, drop,
  replicate, leb, ltb, ◌==◌, ◌&&◌, if◌then◌else◌,
}
use galaxie.Run.{Run, ok, exited, undefined, ◌>>=◌}
use galaxie.Wire.{be32, be64}
use galaxie.Server.{Server}
use galaxie.Server.Send.{Request, Reply, server_send}

-- One entry of the argument list. A string is its bytes before the NUL, and may be NULL; `raw` is
-- the pair of arguments of 'r', a number of words and the bytes that the pointer leads to.
pub data Arg : Type 0 where
  int : ℕ → Arg
  long : ℕ → Arg
  str : Option (List ℕ) → Arg
  raw : ℕ → List ℕ → Arg

-- What one round of the loop does: the bytes that it writes at `buf + pos`, what it adds to `pos`,
-- and the arguments that are left.
pub record Chunk : Type 0 where
  pub bytes : List ℕ
  pub words : ℕ
  pub args : List Arg

-- `strncpy(_, s, n)`: the rest of the `n` bytes is filled with zeros.
unfoldable pub strncpy : List ℕ → ℕ → List ℕ
strncpy s n = take n s ++ replicate (n - length s) 0

unfoldable pub padded : ℕ → ℕ
padded len = if len % 4 == 0 then len else len + (4 - len % 4)

unfoldable pub str_chunk : List ℕ → List Arg → Chunk
str_chunk s args =
    if length s == 0 then record { bytes = be32 0; words = 1; args = args } else record {
      bytes = be32 (padded (length s)) ++ strncpy s (padded (length s));
      words = 1 + padded (length s) / 4;
      args = args;
    }

-- An argument of another type than the format asks for is undefined behaviour.
unfoldable pub int_case : List Arg → Run Chunk
int_case (int v ∷ args) = ok (record { bytes = be32 v; words = 1; args = args })
int_case _ = undefined

unfoldable pub long_case : List Arg → Run Chunk
long_case (long v ∷ args) = ok (record { bytes = be64 v; words = 2; args = args })
long_case _ = undefined

unfoldable pub str_case : List Arg → Run Chunk
str_case (str none ∷ args) = ok (record { bytes = be32 0; words = 1; args = args })
str_case (str (some s) ∷ args) = ok (str_chunk s args)
str_case _ = undefined

unfoldable pub raw_case : List Arg → Run Chunk
raw_case (raw len bytes ∷ args) =
    ok (record { bytes = take (4 * len) bytes; words = len; args = args })
raw_case _ = undefined

unfoldable pub chunk : ℕ → List Arg → Run Chunk
unfolding int_case long_case str_case raw_case
chunk c args =
    if c == b'0'
    then ok (record { bytes = be32 0; words = 1; args = args })
    else if c == b'i'
    then int_case args
    else if c == b'l'
    then long_case args
    else if c == b's'
    then str_case args
    else if c == b'r'
    then raw_case args
    else if c == b'V'
    then ok (record { bytes = []; words = 0; args = args })
    else exited

-- `if (buf)`: the write of a round, which is undefined outside the buffer, and where the pointer of
-- 'r' leads to fewer bytes than are copied.
unfoldable pub write : Option (List ℕ) → ℕ → Chunk → Run (Option (List ℕ))
write none pos k = ok none
write (some buf) pos k =
    if length k.bytes == 4 * k.words && leb (4 * pos + length k.bytes) (length buf)
    then ok (some (take (4 * pos) buf ++ (k.bytes ++ drop (4 * pos + length k.bytes) buf)))
    else undefined

-- The loop of `format_server`: the buffer, if there is one, and `pos` at the end.
unfoldable pub format_server : Option (List ℕ) → ℕ → List ℕ → List Arg → Run (Option (List ℕ) × ℕ)
unfolding chunk write
format_server buf pos [] args = ok (buf, pos)
format_server buf pos (c ∷ format) args = chunk c args >>= λ k.
    write buf pos k >>= λ buf'. format_server buf' (pos + k.words) format k.args

abbrev pub body_of : Option (List ℕ) → List ℕ
body_of none = []
body_of (some buf) = buf

-- `malloc n` is what the new block of `n` bytes holds.
module _ (malloc : ℕ → List ℕ) where
  -- The two calls of `format_server`: the body of the packet.
  unfoldable pub format_body : List ℕ → List Arg → Run (List ℕ)
  unfolding format_server
  format_body format args = format_server none 0 format args >>= λ first.
      (if ltb 0 first.1
        then format_server (some (malloc (4 * first.1))) 0 format args
        else ok first)
      >>= λ out. ok (body_of out.0)

  unfoldable pub server_send_format :
      {C : Type 0} → Server C → String → Option C → List ℕ → List Arg → Run (Server C × Reply)
  unfolding format_body
  server_send_format s type cb format args = format_body format args >>= λ body.
      server_send s (record { type = type; cb = cb; body = body })
