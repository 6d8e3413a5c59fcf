-- ===== src/Options/Command.antt =====
-- Command lines, and what they ask for: the reference for the loop of galaxie.c over its arguments.
pub mod Reads
pub mod Faults
use galaxie.Prelude.{
  ℕ, suc, ◌+◌, ◌-◌, ◌%◌, ◌^◌, ◌≤◌, ◌<◌, ◌≡◌, refl, sym, ap, ◌∙◌, arith, Bool, true, false, Option,
  none, some, List, [], ◌∷◌, ◌++◌, ◌==◌, if◌then◌else◌, get_elem?, drop, length, All,
}
use galaxie.Run.{Run, ok, ◌>>=◌}
use galaxie.Wire.{minus_one}
use galaxie.Options.{
  Str, Startopt, Handler, option_table, option_of, is_prefix, after_eq, parse_option, strdup,
  free_str,
}
use galaxie.Options.Url.{Libc}
use galaxie.Options.Parse.{run_option, parse_loop, parse_args, defaults, parse_username, parse_port}

-- The options that take a value.
pub data Key : Type 0 where
  user password server game theme port : Key

-- The options that take none, and return.
pub data Flag : Type 0 where
  browse no_ai no_gui fullscreen options debug_messages : Flag

-- `--key=value`, `--key value` and `--flag`.
pub data Item : Type 0 where
  joined : Key → List ℕ → Item
  spaced : Key → List ℕ → Item
  alone : Flag → Item

abbrev pub key_name : Key → List ℕ
key_name Key.user = b'-' ∷ b'-' ∷ b'u' ∷ b's' ∷ b'e' ∷ b'r' ∷ []
key_name Key.password = b'-' ∷ b'-' ∷ b'p' ∷ b'a' ∷ b's' ∷ b's' ∷ b'w' ∷ b'o' ∷ b'r' ∷ b'd' ∷ []
key_name Key.server = b'-' ∷ b'-' ∷ b's' ∷ b'e' ∷ b'r' ∷ b'v' ∷ b'e' ∷ b'r' ∷ []
key_name Key.game = b'-' ∷ b'-' ∷ b'g' ∷ b'a' ∷ b'm' ∷ b'e' ∷ []
key_name Key.theme = b'-' ∷ b'-' ∷ b't' ∷ b'h' ∷ b'e' ∷ b'm' ∷ b'e' ∷ []
key_name Key.port = b'-' ∷ b'-' ∷ b'p' ∷ b'o' ∷ b'r' ∷ b't' ∷ []

abbrev flag_name : Flag → List ℕ
flag_name Flag.browse = b'-' ∷ b'b' ∷ []
flag_name Flag.no_ai = b'-' ∷ b'-' ∷ b'n' ∷ b'o' ∷ b'-' ∷ b'a' ∷ b'i' ∷ []
flag_name Flag.no_gui = b'-' ∷ b'-' ∷ b'n' ∷ b'o' ∷ b'-' ∷ b'g' ∷ b'u' ∷ b'i' ∷ []
flag_name Flag.fullscreen =
    b'-' ∷ b'-' ∷ b'f' ∷ b'u' ∷ b'l' ∷ b'l' ∷ b's' ∷ b'c' ∷ b'r' ∷ b'e' ∷ b'e' ∷ b'n' ∷ []
flag_name Flag.options = b'-' ∷ b'-' ∷ b'o' ∷ b'p' ∷ b't' ∷ b'i' ∷ b'o' ∷ b'n' ∷ b's' ∷ []
flag_name Flag.debug_messages =
    b'-' ∷ b'-' ∷ b'd' ∷ b'e' ∷ b'b' ∷ b'u' ∷ b'g' ∷ b'-' ∷ b'm' ∷ b'e' ∷ b's' ∷ b's' ∷ b'a' ∷ b'g'
    ∷ b'e' ∷ b's' ∷ []

abbrev pub set_key : Libc → Key → List ℕ → Startopt → Startopt
set_key libc Key.user v opt = record opt { username = strdup v }
set_key libc Key.password v opt = record opt { password = strdup v }
set_key libc Key.server v opt = record opt { server = strdup v }
set_key libc Key.game v opt = record opt { game = strdup v }
set_key libc Key.theme v opt = record opt { theme = strdup v }
set_key libc Key.port v opt = record opt { port = libc.strtol v 0 % 2 ^ 16 }

abbrev pub set_flag : Flag → Startopt → Startopt
set_flag Flag.browse opt = record opt { browse = true }
set_flag Flag.no_ai opt = record opt { ai = none }
set_flag Flag.no_gui opt = record opt { usegui = false }
set_flag Flag.fullscreen opt = record opt { fullscreen = true }
set_flag Flag.options opt = record opt { showoptions = true }
set_flag Flag.debug_messages opt = record opt { messages = true }

abbrev set_item : Libc → Item → Startopt → Startopt
set_item libc (joined k v) opt = set_key libc k v opt
set_item libc (spaced k v) opt = set_key libc k v opt
set_item libc (alone f) opt = set_flag f opt

abbrev pub set_items : Libc → List Item → Startopt → Startopt
set_items libc [] opt = opt
set_items libc (x ∷ xs) opt = set_items libc xs (set_item libc x opt)

abbrev item_args : Item → List (List ℕ)
item_args (joined k v) = (key_name k ++ (b'=' ∷ v)) ∷ []
item_args (spaced k v) = key_name k ∷ v ∷ []
item_args (alone f) = flag_name f ∷ []

abbrev pub command_line : List Item → List (List ℕ)
command_line [] = []
command_line (x ∷ xs) = item_args x ++ command_line xs

-- A value in an argument of its own does not begin like an option.
abbrev pub IsPlain : Item → Type 0
IsPlain (joined k v) = Unit {0}
IsPlain (spaced k v) = option_of option_table v ≡ none
IsPlain (alone f) = Unit {0}

key_handler : Key → Handler
key_handler Key.user = Handler.username
key_handler Key.password = Handler.password
key_handler Key.server = Handler.server
key_handler Key.game = Handler.game
key_handler Key.theme = Handler.theme
key_handler Key.port = Handler.port

flag_handler : Flag → Handler
flag_handler Flag.browse = Handler.usebrowser
flag_handler Flag.no_ai = Handler.no_ai
flag_handler Flag.no_gui = Handler.gui
flag_handler Flag.fullscreen = Handler.fullscreen
flag_handler Flag.options = Handler.options
flag_handler Flag.debug_messages = Handler.debug_messages

option_of-key :
    (k : Key) (text : List ℕ) → option_of option_table (key_name k ++ text) ≡ some (key_handler k)
unfolding option_of option_table key_handler
option_of-key Key.user text = refl
option_of-key Key.password text = refl
option_of-key Key.server text = refl
option_of-key Key.game text = refl
option_of-key Key.theme text = refl
option_of-key Key.port text = refl

option_of-flag : (f : Flag) → option_of option_table (flag_name f) ≡ some (flag_handler f)
unfolding option_of option_table flag_handler
option_of-flag Flag.browse = refl
option_of-flag Flag.no_ai = refl
option_of-flag Flag.no_gui = refl
option_of-flag Flag.fullscreen = refl
option_of-flag Flag.options = refl
option_of-flag Flag.debug_messages = refl

after_eq-joined : (k : Key) (v : List ℕ) → after_eq (key_name k ++ (b'=' ∷ v)) ≡ some v
unfolding after_eq
after_eq-joined Key.user v = refl
after_eq-joined Key.password v = refl
after_eq-joined Key.server v = refl
after_eq-joined Key.game v = refl
after_eq-joined Key.theme v = refl
after_eq-joined Key.port v = refl

after_eq-spaced : (k : Key) → after_eq (key_name k) ≡ none
unfolding after_eq
after_eq-spaced Key.user = refl
after_eq-spaced Key.password = refl
after_eq-spaced Key.server = refl
after_eq-spaced Key.game = refl
after_eq-spaced Key.theme = refl
after_eq-spaced Key.port = refl
