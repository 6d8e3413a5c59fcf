-- ===== src/Options/Main/Starts.antt =====
-- galaxie.c from a command line to the call that opens the connection.
use galaxie.Prelude.{
  ℕ, ◌<◌, ◌≡◌, refl, Bool, false, Option, none, some, List, [], ◌∷◌, length, All, Bool-cases, inl,
  inr, if◌then◌else◌,
}
use galaxie.Run.{ok}
use galaxie.Wire.{minus_one}
use galaxie.Options.{Str, Startopt}
use galaxie.Options.Url.{Libc}
use galaxie.Options.Url.Named.{IsGiven, IsNamed}
use galaxie.Options.Parse.{defaults}
use galaxie.Options.Command.{
  Key, Flag, Item, joined, spaced, alone, set_key, set_flag, set_items, command_line, IsPlain,
}
use galaxie.Options.Command.Reads.{parse_args-command_line}
use galaxie.Options.Main.{Start, browser_add, tpe_comm_connect, start, main}

set_key-IsNamed :
    (libc : Libc) (k : Key) (v : List ℕ) (opt : Startopt)
    → IsNamed opt
    → IsNamed (set_key libc k v opt)
set_key-IsNamed libc Key.user v opt n = record {
  username = tt;
  password = n.password;
  server = n.server;
}
set_key-IsNamed libc Key.password v opt n = record {
  username = n.username;
  password = tt;
  server = n.server;
}
set_key-IsNamed libc Key.server v opt n = record {
  username = n.username;
  password = n.password;
  server = tt;
}
set_key-IsNamed libc Key.game v opt n = record {
  username = n.username;
  password = n.password;
  server = n.server;
}
set_key-IsNamed libc Key.theme v opt n = record {
  username = n.username;
  password = n.password;
  server = n.server;
}
set_key-IsNamed libc Key.port v opt n = record {
  username = n.username;
  password = n.password;
  server = n.server;
}

set_flag-IsNamed : (f : Flag) (opt : Startopt) → IsNamed opt → IsNamed (set_flag f opt)
set_flag-IsNamed Flag.browse opt n = record {
  username = n.username;
  password = n.password;
  server = n.server;
}
set_flag-IsNamed Flag.no_ai opt n = record {
  username = n.username;
  password = n.password;
  server = n.server;
}
set_flag-IsNamed Flag.no_gui opt n = record {
  username = n.username;
  password = n.password;
  server = n.server;
}
set_flag-IsNamed Flag.fullscreen opt n = record {
  username = n.username;
  password = n.password;
  server = n.server;
}
set_flag-IsNamed Flag.options opt n = record {
  username = n.username;
  password = n.password;
  server = n.server;
}
set_flag-IsNamed Flag.debug_messages opt n = record {
  username = n.username;
  password = n.password;
  server = n.server;
}

set_items-IsNamed :
    (libc : Libc) (xs : List Item) (opt : Startopt) → IsNamed opt → IsNamed (set_items libc xs opt)
set_items-IsNamed libc [] opt n = n
set_items-IsNamed libc (joined k v ∷ xs) opt n =
    set_items-IsNamed libc xs (set_key libc k v opt) (set_key-IsNamed libc k v opt n)
set_items-IsNamed libc (spaced k v ∷ xs) opt n =
    set_items-IsNamed libc xs (set_key libc k v opt) (set_key-IsNamed libc k v opt n)
set_items-IsNamed libc (alone f ∷ xs) opt n =
    set_items-IsNamed libc xs (set_flag f opt) (set_flag-IsNamed f opt n)

given : (s : Option Str) → IsGiven s → (x : Str) × (s ≡ some x)
given none n = elim n [ ]
given (some x) n = (x, refl)

-- The options of `main` with their defaults.
abbrev pub options_of : Libc → List (List ℕ) → Bool → List Item → Startopt
options_of libc ais use_gui xs = set_items libc xs (defaults libc ais use_gui)

-- The call for the options, with a server, a user name and a password.
abbrev call_of : Startopt → Str → Str → Str → Start
call_of opt server user pass =
    if opt.browse
    then browser_add (some server)
    else tpe_comm_connect server opt.port opt.game user pass

defaults-IsNamed :
    (libc : Libc) (ais : List (List ℕ)) (use_gui : Bool) → IsNamed (defaults libc ais use_gui)
unfolding defaults
defaults-IsNamed libc ais use_gui = record { username = tt; password = tt; server = tt }

-- A command line of the program's name and options as `parse_args-command_line` has them, without
-- --options, in a program whose events could be set up: `main` gets to its main loop, and has called
-- browser_add, if -b is among them, or else tpe_comm_connect with the server, the port, the game, the
-- user name and the password that the options and the defaults say. The server, the user name and
-- the password are not NULL.
pub main-command_line :
    (libc : Libc) (ais : List (List ℕ)) (use_gui : Bool) (program : List ℕ) (xs : List Item)
    → All IsPlain xs
    → length (program ∷ command_line xs) < minus_one
    → (options_of libc ais use_gui xs).showoptions ≡ false
    → (server : Str) × (user : Str) × (pass : Str) × ((options_of libc ais use_gui xs).server
        ≡ some server)
      × ((options_of libc ais use_gui xs).username ≡ some user)
      × ((options_of libc ais use_gui xs).password ≡ some pass)
      × (main libc ais use_gui false (program ∷ command_line xs)
          ≡ ok (call_of (options_of libc ais use_gui xs) server user pass))
unfolding main start
main-command_line libc ais use_gui program xs plain fits quiet =
    let opt = options_of libc ais use_gui xs in
    let n =
      set_items-IsNamed libc xs (defaults libc ais use_gui) (defaults-IsNamed libc ais use_gui) in
    let (server, s) = given opt.server n.server in
    let (user, u) = given opt.username n.username in
    let (pass, p) = given opt.password n.password in
    (
      server,
      user,
      pass,
      s,
      u,
      p,
      rw (parse_args-command_line libc ais use_gui program xs plain fits, quiet)
          (elim (Bool-cases opt.browse) [ inl b ↦ rw (b, s) refl | inr b ↦ rw (b, s, u, p) refl ]),
    )
