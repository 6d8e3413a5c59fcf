-- ===== src/Options/Tests.antt =====
-- The theorems on options at concrete command lines.
use galaxie.Prelude.{
  ℕ, ◌≡◌, refl, arith, true, false, none, some, List, [], ◌∷◌, ◌==◌, if◌then◌else◌, length,
  length-replicate, replicate, bytes_eq, Bool-cases, inl, inr,
}
use galaxie.Run.{ok, undefined, ◌>>=◌, Returns}
use galaxie.Options.{Str, option_of, option_table, parse_option, free_str, after_eq, is_prefix}
use galaxie.Options.Url.{Match, Libc, parse_url}
use galaxie.Options.Url.Reads.{
  UrlParts, IsFull, IsFreeable, print_url, url_matches, url_options, parse_url-print_url,
}
use galaxie.Options.Url.Keeps.{WritesAll, parse_url-game}
use galaxie.Options.Parse.{parse_args, defaults, parse_loop, run_option, parse_username}
use galaxie.Options.Command.{Key, Flag, Item, joined, spaced, alone, set_items, command_line}
use galaxie.Options.Command.Reads.{parse_args-command_line}
use galaxie.Options.Main.{main}
use galaxie.Options.Main.{tpe_comm_connect}
use galaxie.Options.Main.Starts.{options_of, main-command_line}

abbrev parts : UrlParts
parts = record {
  user = b'm' ∷ b'e' ∷ [];
  password = b'p' ∷ [];
  server = b'h' ∷ b'x' ∷ [];
  port = b'9' ∷ [];
}

abbrev unmatched : Match
unmatched = record { so = none; eo = none }

-- What is found in every text: the matches of the pattern in the URL of these parts.
abbrev found : ℕ → List Match
found n = if n == 10 then url_matches parts else replicate n unmatched

abbrev libc : Libc
libc = record {
  regcomp = λ pattern. some 10;
  regexec = λ n text. some (found n);
  calloc = λ n. true;
  strtol = λ text base. length text;
  strcasecmp_eq = bytes_eq;
}

found-WritesAll : WritesAll libc
found-WritesAll n text list h = elim (Bool-cases (n == 10)) [
  | inl e ↦ ground (arith, e, h)
  | inr e ↦ ground (arith, e, h, length-replicate n unmatched)
]

abbrev program : List ℕ
program = b't' ∷ b'p' ∷ b'e' ∷ []

abbrev ais : List (List ℕ)
ais = (b'J' ∷ []) ∷ (b'n' ∷ b'o' ∷ b'n' ∷ b'e' ∷ []) ∷ []

full : IsFull parts
full = record {
  user = omega arith;
  password = omega arith;
  server = omega arith;
  port = omega arith;
}

freeable : IsFreeable (defaults libc ais true)
unfolding defaults free_str
freeable = record { username = refl; password = refl; server = refl }

-- `tpe --user=a=b --server h --no-gui --port=80`
abbrev items : List Item
items =
    joined Key.user (b'a' ∷ b'=' ∷ b'b' ∷ [])
    ∷ spaced Key.server (b'h' ∷ [])
    ∷ alone Flag.no_gui
    ∷ joined Key.port (b'8' ∷ b'0' ∷ [])
    ∷ []

parse_args-command_line_example :
    parse_args libc ais true (program ∷ command_line items)
    ≡ ok (set_items libc items (defaults libc ais true))
unfolding option_of option_table
parse_args-command_line_example =
    parse_args-command_line libc ais true program items (tt, (refl, (tt, (tt, tt)))) (omega arith)

parse_url-print_url_example :
    parse_url libc (defaults libc ais true) 1 (program ∷ print_url parts ∷ [])
    ≡ ok (url_options libc parts (defaults libc ais true), 1)
parse_url-print_url_example =
    parse_url-print_url libc refl refl parts (defaults libc ais true) 1
      (program ∷ print_url parts ∷ []) full freeable refl refl

parse_url-game_example :
    Returns
      (λ r. r.0.game ≡ none)
      (parse_url libc (defaults libc ais true) 1 (program ∷ print_url parts ∷ []))
unfolding defaults
parse_url-game_example =
    parse_url-game libc (defaults libc ais true) 1 (program ∷ print_url parts ∷ []) found-WritesAll
      refl

main-command_line_example :
    (server : Str) × (user : Str) × (pass : Str) × ((options_of libc ais true items).server
      ≡ some server)
    × ((options_of libc ais true items).username ≡ some user)
    × ((options_of libc ais true items).password ≡ some pass)
    × (main libc ais true false (program ∷ command_line items)
        ≡ ok (tpe_comm_connect server 2 none user pass))
unfolding option_of option_table defaults
main-command_line_example =
    main-command_line libc ais true program items (tt, (refl, (tt, (tt, tt)))) (omega arith) refl

-- A value in an argument of its own is parsed as an option as well: `tpe -u --no-gui` sets the user
-- name and turns the interface off.
value_is_option :
    (parse_args libc ais true (program ∷ (b'-' ∷ b'u' ∷ []) ∷ command_line (alone Flag.no_gui ∷ []))
      >>= λ opt. ok (opt.usegui))
    ≡ ok false
unfolding parse_args parse_loop run_option parse_username defaults option_of option_table is_prefix
    after_eq parse_option free_str
value_is_option = refl

-- An option at the end of the line reads a pointer that was never set.
no_value : parse_args libc ais true (program ∷ (b'-' ∷ b'u' ∷ []) ∷ []) ≡ undefined
unfolding parse_args parse_loop run_option parse_username defaults option_of option_table is_prefix
    after_eq parse_option free_str
no_value = refl
