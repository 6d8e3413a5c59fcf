-- ===== src/Options/Main.antt =====
-- galaxie.c: what `main` does with the options, up to its main loop.
pub mod Connects
pub mod Starts
use galaxie.Prelude.{ℕ, Bool, true, false, Option, none, some, List, if◌then◌else◌}
use galaxie.Run.{Run, ok, exited, ◌>>=◌}
use galaxie.Options.{Str, Startopt}
use galaxie.Options.Url.{Libc}
use galaxie.Options.Parse.{parse_args}

-- The call that `main` makes before it enters the main loop.
pub data Start : Type 0 where
  browser_add : Option Str → Start
  tpe_comm_connect : Str → ℕ → Option Str → Str → Str → Start
  no_call : Start

-- The choice between the browser and the connection.
unfoldable pub start : Startopt → Start
start opt = if opt.browse then browser_add opt.server else (elim opt.server as (λ _. Start) [
  | none ↦ no_call
  | some server ↦ elim opt.username as (λ _. Start) [
    | none ↦ no_call
    | some username ↦ elim opt.password as (λ _. Start) [
      | none ↦ no_call
      | some password ↦ tpe_comm_connect server opt.port opt.game username password
    ]
  ]
])

-- `main`, where `event_init` says whether `tpe_event_init` fails.
unfoldable pub main : Libc → List (List ℕ) → Bool → Bool → List (List ℕ) → Run Start
unfolding parse_args start
main libc ais use_gui event_init args = parse_args libc ais use_gui args >>= λ opt.
    if opt.showoptions then exited else if event_init then exited else ok (start opt)
