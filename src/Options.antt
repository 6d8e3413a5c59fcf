-- ===== src/Options.antt =====
-- galaxie.c: the options of the command line, from the table of options to the record that `main`
-- reads. A string is the list of its bytes before the NUL.
pub mod Url
pub mod Parse
pub mod Main
pub mod Command
mod Tests
use galaxie.Prelude.{
  ℕ, suc, Bool, true, false, Option, none, some, List, [], ◌∷◌, ◌==◌, if◌then◌else◌, get_elem?,
}
use galaxie.Run.{Run, ok, undefined}

-- A `char *` that the program owns, and whether `talloc_strndup` made it or `strdup`.
pub record Str : Type 0 where
  pub chars : List ℕ
  pub talloced : Bool

-- `struct startopt`; `ai` is the index of the computer player in `ai_info`.
pub record Startopt : Type 0 where
  pub browse : Bool
  pub http : Bool
  pub ssl : Bool
  pub port : ℕ
  pub server : Option Str
  pub game : Option Str
  pub username : Option Str
  pub password : Option Str
  pub ai : Option ℕ
  pub usegui : Bool
  pub fullscreen : Bool
  pub theme : Option Str
  pub messages : Bool
  pub showoptions : Bool

-- The functions of the table.
pub data Handler : Type 0 where
  usebrowser username password server port game ai no_ai gui theme fullscreen url options list_ai
        usage test debug_messages :
      Handler

-- `struct args`.
pub record OptionRow : Type 0 where
  pub arg : List ℕ
  pub fn : Handler

abbrev option : List ℕ → Handler → OptionRow
option arg fn = record { arg = arg; fn = fn }

-- The table `args`.
unfoldable pub option_table : List OptionRow
option_table =
    option (b'-' ∷ b'b' ∷ []) Handler.usebrowser
    ∷ option (b'-' ∷ b'-' ∷ b'u' ∷ b's' ∷ b'e' ∷ b'r' ∷ []) Handler.username
    ∷ option (b'-' ∷ b'u' ∷ []) Handler.username
    ∷ option (b'-' ∷ b'-' ∷ b'p' ∷ b'a' ∷ b's' ∷ b's' ∷ b'w' ∷ b'o' ∷ b'r' ∷ b'd' ∷ [])
        Handler.password
    ∷ option (b'-' ∷ b'p' ∷ []) Handler.password
    ∷ option (b'-' ∷ b'-' ∷ b's' ∷ b'e' ∷ b'r' ∷ b'v' ∷ b'e' ∷ b'r' ∷ []) Handler.server
    ∷ option (b'-' ∷ b's' ∷ []) Handler.server
    ∷ option (b'-' ∷ b'-' ∷ b'p' ∷ b'o' ∷ b'r' ∷ b't' ∷ []) Handler.port
    ∷ option (b'-' ∷ b'-' ∷ b'g' ∷ b'a' ∷ b'm' ∷ b'e' ∷ []) Handler.game
    ∷ option (b'-' ∷ b'g' ∷ []) Handler.game
    ∷ option (b'-' ∷ b'-' ∷ b'a' ∷ b'i' ∷ []) Handler.ai
    ∷ option (b'-' ∷ b'-' ∷ b'n' ∷ b'o' ∷ b'-' ∷ b'a' ∷ b'i' ∷ []) Handler.no_ai
    ∷ option (b'-' ∷ b'-' ∷ b'n' ∷ b'o' ∷ b'a' ∷ b'i' ∷ []) Handler.no_ai
    ∷ option (b'-' ∷ b'-' ∷ b'n' ∷ b'o' ∷ b'-' ∷ b'g' ∷ b'u' ∷ b'i' ∷ []) Handler.gui
    ∷ option (b'-' ∷ b'-' ∷ b'n' ∷ b'o' ∷ b'g' ∷ b'u' ∷ b'i' ∷ []) Handler.gui
    ∷ option (b'-' ∷ b'-' ∷ b't' ∷ b'h' ∷ b'e' ∷ b'm' ∷ b'e' ∷ []) Handler.theme
    ∷ option (b'-' ∷ b't' ∷ []) Handler.theme
    ∷ option
        (b'-' ∷ b'-' ∷ b'f' ∷ b'u' ∷ b'l' ∷ b'l' ∷ b's' ∷ b'c' ∷ b'r' ∷ b'e' ∷ b'e' ∷ b'n' ∷ [])
        Handler.fullscreen
    ∷ option (b't' ∷ b'p' ∷ []) Handler.url
    ∷ option (b'-' ∷ b'-' ∷ b'o' ∷ b'p' ∷ b't' ∷ b'i' ∷ b'o' ∷ b'n' ∷ b's' ∷ []) Handler.options
    ∷ option (b'-' ∷ b'-' ∷ b'l' ∷ b'i' ∷ b's' ∷ b't' ∷ b'-' ∷ b'a' ∷ b'i' ∷ b's' ∷ [])
        Handler.list_ai
    ∷ option (b'-' ∷ b'-' ∷ b'l' ∷ b'i' ∷ b's' ∷ b't' ∷ b'-' ∷ b'a' ∷ b'i' ∷ []) Handler.list_ai
    ∷ option (b'-' ∷ b'-' ∷ b'a' ∷ b'i' ∷ b's' ∷ []) Handler.list_ai
    ∷ option (b'-' ∷ b'-' ∷ b'l' ∷ b'i' ∷ b's' ∷ b't' ∷ b'a' ∷ b'i' ∷ b's' ∷ []) Handler.list_ai
    ∷ option (b'-' ∷ b'-' ∷ b'l' ∷ b'i' ∷ b's' ∷ b't' ∷ b'a' ∷ b'i' ∷ []) Handler.list_ai
    ∷ option (b'-' ∷ b'-' ∷ b'u' ∷ b's' ∷ b'a' ∷ b'g' ∷ b'e' ∷ []) Handler.usage
    ∷ option (b'-' ∷ b'-' ∷ b'h' ∷ b'e' ∷ b'l' ∷ b'p' ∷ []) Handler.usage
    ∷ option (b'-' ∷ b'h' ∷ []) Handler.usage
    ∷ option (b'-' ∷ b'?' ∷ []) Handler.usage
    ∷ option (b'-' ∷ b'-' ∷ b't' ∷ b'e' ∷ b's' ∷ b't' ∷ []) Handler.test
    ∷ option
        (b'-' ∷ b'-' ∷ b'd' ∷ b'e' ∷ b'b' ∷ b'u' ∷ b'g' ∷ b'-' ∷ b'm' ∷ b'e' ∷ b's' ∷ b's' ∷ b'a'
          ∷ b'g' ∷ b'e' ∷ b's' ∷ [])
        Handler.debug_messages
    ∷ []

-- `strncmp(arg, text, strlen(arg)) == 0`.
unfoldable pub is_prefix : List ℕ → List ℕ → Bool
is_prefix [] text = true
is_prefix (c ∷ arg) [] = false
is_prefix (c ∷ arg) (d ∷ text) = let rest = is_prefix arg text in if c == d then rest else false

-- The first row that the argument begins with.
unfoldable pub option_of : List OptionRow → List ℕ → Option Handler
unfolding is_prefix
option_of [] text = none
option_of (row ∷ rows) text =
    let rest = option_of rows text in if is_prefix row.arg text then some row.fn else rest

-- What follows the first `=`.
unfoldable pub after_eq : List ℕ → Option (List ℕ)
after_eq [] = none
after_eq (c ∷ text) = let rest = after_eq text in if c == b'=' then some text else rest

-- The value and the index behind it. The pointer that it returns is never NULL: it is not set at
-- all where the list of arguments ends.
unfoldable pub parse_option : List (List ℕ) → ℕ → Run (List ℕ × ℕ)
unfolding after_eq
parse_option args i = elim (get_elem? args i) [
  | none ↦ undefined
  | some arg ↦ elim (after_eq arg) [
    | some value ↦ ok (value, i)
    | none ↦ elim (get_elem? args (suc i)) [ none ↦ undefined | some value ↦ ok (value, suc i) ]
  ]
]

-- `strdup` is taken to find memory.
abbrev pub strdup : List ℕ → Option Str
strdup text = some (record { chars = text; talloced = false })

-- `if (s) free(s);`
unfoldable pub free_str : Option Str → Run (Unit {0})
free_str none = ok tt
free_str (some s) = if s.talloced then undefined else ok tt
