-- ===== src/Options/Parse.antt =====
-- galaxie.c: the functions of the table of options, and the loop over the arguments.
use galaxie.Prelude.{
  ℕ, suc, ◌%◌, ◌^◌, Bool, true, false, Option, none, some, List, [], ◌∷◌, ◌==◌, if◌then◌else◌,
}
use galaxie.Run.{Run, ok, exited, undefined, ◌>>=◌}
use galaxie.Wire.{minus_one}
use galaxie.Options.{Startopt, Handler, option_table, option_of, parse_option, strdup, free_str}
use galaxie.Options.Url.{Libc, parse_url}

-- The index in `ai_info` of the first player of that name.
unfoldable pub find_ai : Libc → List (List ℕ) → List ℕ → ℕ → Option ℕ
find_ai libc [] name j = none
find_ai libc (ai ∷ ais) name j =
    let rest = find_ai libc ais name (suc j) in if libc.strcasecmp_eq ai name then some j else rest

-- A function that does one thing to the options and takes no value.
abbrev flag : Startopt → ℕ → Run (Startopt × ℕ)
flag opt i = ok (opt, i)

-- A function that stores the value of its option.
abbrev pub with_value : List (List ℕ) → ℕ → (List ℕ → Run Startopt) → Run (Startopt × ℕ)
with_value args i store = parse_option args i >>= λ v. store v.0 >>= λ opt. ok (opt, v.1)

-- `ais` holds the names in `ai_info`, which a header that the build writes lists; "none" is last.
module _ (libc : Libc) (ais : List (List ℕ)) where
  unfoldable pub parse_username : Startopt → ℕ → List (List ℕ) → Run (Startopt × ℕ)
  unfolding parse_option free_str
  parse_username opt i args =
      with_value args i
        (λ tmp. free_str opt.username >>= λ _. ok (record opt { username = strdup tmp }))

  unfoldable pub parse_ai : Startopt → ℕ → List (List ℕ) → Run (Startopt × ℕ)
  unfolding parse_option find_ai
  parse_ai opt i args = with_value args i (λ p. elim (find_ai libc ais p 0) [
    | none ↦ ok opt
    | some j ↦ ok (record opt { ai = some j })
  ])

  unfoldable pub parse_port : Startopt → ℕ → List (List ℕ) → Run (Startopt × ℕ)
  unfolding parse_option
  parse_port opt i args =
      with_value args i (λ p. ok (record opt { port = libc.strtol p 0 % 2 ^ 16 }))

  -- `args[j].fn(opt, i, argv)`: the options and the number returned. `tpe_util_test` ends in exit(0).
  unfoldable pub run_option : Handler → Startopt → ℕ → List (List ℕ) → Run (Startopt × ℕ)
  unfolding parse_username parse_ai parse_port parse_url parse_option
  run_option Handler.usebrowser opt i args = ok (record opt { browse = true }, suc i)
  run_option Handler.test opt i args = exited
  run_option Handler.username opt i args = parse_username opt i args
  run_option Handler.password opt i args =
      with_value args i (λ tmp. ok (record opt { password = strdup tmp }))
  run_option Handler.ai opt i args = parse_ai opt i args
  run_option Handler.no_ai opt i args = flag (record opt { ai = none }) i
  run_option Handler.list_ai opt i args = exited
  run_option Handler.gui opt i args = flag (record opt { usegui = false }) i
  run_option Handler.fullscreen opt i args = flag (record opt { fullscreen = true }) i
  run_option Handler.debug_messages opt i args = flag (record opt { messages = true }) i
  run_option Handler.theme opt i args =
      with_value args i (λ tmp. ok (record opt { theme = strdup tmp }))
  run_option Handler.game opt i args =
      with_value args i (λ tmp. ok (record opt { game = strdup tmp }))
  run_option Handler.server opt i args =
      with_value args i (λ tmp. ok (record opt { server = strdup tmp }))
  run_option Handler.options opt i args = flag (record opt { showoptions = true }) i
  run_option Handler.port opt i args = parse_port opt i args
  run_option Handler.url opt i args = parse_url libc opt i args
  run_option Handler.usage opt i args = exited

  -- The loop from argument `i` on, where `more` is what is left of `args`.
  unfoldable pub parse_loop : List (List ℕ) → ℕ → List (List ℕ) → Startopt → Run Startopt
  unfolding run_option option_of option_table
  parse_loop args i [] opt = ok opt
  parse_loop args i (arg ∷ more) opt = elim (option_of option_table arg) [
    | none ↦ parse_loop args (suc i) more opt
    | some fn ↦ run_option fn opt i args >>= λ r. elim (r.1 == minus_one) [
      | true ↦ ok r.0
      | false ↦ parse_loop args (suc i) more r.0
    ]
  ]

  -- The options at the start of `parse_args`.
  unfoldable pub defaults : Bool → Startopt
  defaults use_gui = record {
    browse = false;
    http = false;
    ssl = false;
    port = 6923;
    server = strdup (b'l' ∷ b'o' ∷ b'c' ∷ b'a' ∷ b'l' ∷ b'h' ∷ b'o' ∷ b's' ∷ b't' ∷ []);
    game = none;
    username = strdup (b'n' ∷ b'a' ∷ b's' ∷ b'h' ∷ []);
    password = strdup (b'p' ∷ b'a' ∷ b's' ∷ b's' ∷ b'w' ∷ b'o' ∷ b'r' ∷ b'd' ∷ []);
    ai = some 0;
    usegui = use_gui;
    fullscreen = false;
    theme = none;
    messages = false;
    showoptions = false;
  }

  -- `use_gui` is the macro USE_GUI, which the Makefile sets; `args` is argv before its NULL.
  unfoldable pub parse_args : Bool → List (List ℕ) → Run Startopt
  unfolding parse_loop defaults
  parse_args use_gui [] = undefined
  parse_args use_gui (program ∷ more) = parse_loop (program ∷ more) 1 more (defaults use_gui)
