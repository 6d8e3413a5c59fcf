-- ===== src/Options/Main/Connects.antt =====
-- galaxie.c never gets to its main loop with nothing to do.
use mathlib.Core.Path.{subst}
use galaxie.Prelude.{
  ℕ, suc, ◌%◌, ◌^◌, Bool, true, false, none, some, List, [], ◌∷◌, ◌==◌, Option-cases, Bool-cases,
  inl, inr,
}
use galaxie.Run.{Run, ok, Returns, >>=-Returns, Returns-ok}
use galaxie.Wire.{minus_one}
use galaxie.Options.{Startopt, Handler, option_of, option_table, parse_option, free_str, strdup}
use galaxie.Options.Url.{Libc}
use galaxie.Options.Url.Named.{IsGiven, IsNamed, parse_url-IsNamed}
use galaxie.Options.Parse.{
  run_option, parse_loop, parse_args, defaults, with_value, find_ai, parse_username, parse_ai,
  parse_port,
}
use galaxie.Options.Main.{Start, browser_add, tpe_comm_connect, no_call, start, main}

with_value-Returns :
    (P : Startopt → Type 0) (args : List (List ℕ)) (i : ℕ) (store : List ℕ → Run Startopt)
    → ((v : List ℕ) → Returns P (store v))
    → Returns (λ r. P r.0) (with_value args i store)
with_value-Returns P args i store h =
    >>=-Returns (λ r. P r.0) (parse_option args i) _
      (λ v e. >>=-Returns (λ r. P r.0) (store v.0) _ (λ opt s. Returns-ok P (store v.0) (h v.0) s))

-- The call opens the browser, with a server, or a connection.
abbrev Calls : Start → Type 0
Calls (browser_add server) = IsGiven server
Calls (tpe_comm_connect server port game username password) = Unit {0}
Calls no_call = ⊥

start-Calls : (opt : Startopt) → IsNamed opt → Calls (start opt)
unfolding start
start-Calls opt n = elim (Bool-cases opt.browse) [
  | inl b ↦ rw (start, b) n.server
  | inr b ↦ elim (Option-cases opt.server) [
    | inl e ↦ absurd (subst IsGiven e n.server)
    | inr (server, e) ↦ elim (Option-cases opt.username) [
      | inl f ↦ absurd (subst IsGiven f n.username)
      | inr (username, f) ↦ elim (Option-cases opt.password) [
        | inl g ↦ absurd (subst IsGiven g n.password)
        | inr (password, g) ↦ rw (start, b, e, f, g) tt
      ]
    ]
  ]
]

module _ (libc : Libc) (ais : List (List ℕ)) where
  run_option-IsNamed :
      (fn : Handler) (opt : Startopt) (i : ℕ) (args : List (List ℕ))
      → IsNamed opt
      → Returns (λ r. IsNamed r.0) (run_option libc ais fn opt i args)
  unfolding run_option parse_username parse_ai parse_port
  run_option-IsNamed Handler.usebrowser opt i args n = record {
    username = n.username;
    password = n.password;
    server = n.server;
  }
  run_option-IsNamed Handler.test opt i args n = tt
  run_option-IsNamed Handler.username opt i args n = with_value-Returns IsNamed args i _ (λ v.
      >>=-Returns IsNamed (free_str opt.username) (λ _. ok (record opt { username = strdup v }))
        (λ _ _. record { username = tt; password = n.password; server = n.server }))
  run_option-IsNamed Handler.password opt i args n =
      with_value-Returns IsNamed args i (λ v. ok (record opt { password = strdup v }))
        (λ v. record { username = n.username; password = tt; server = n.server })
  run_option-IsNamed Handler.ai opt i args n = with_value-Returns IsNamed args i _ (λ v.
      elim (find_ai libc ais v 0)
        as (λ f. Returns IsNamed (elim f as (λ _. Run Startopt) [
          | none ↦ ok opt
          | some j ↦ ok (record opt { ai = some j })
        ])) [
          | none ↦ n
          | some j ↦ record { username = n.username; password = n.password; server = n.server }
        ])
  run_option-IsNamed Handler.no_ai opt i args n = record {
    username = n.username;
    password = n.password;
    server = n.server;
  }
  run_option-IsNamed Handler.list_ai opt i args n = tt
  run_option-IsNamed Handler.gui opt i args n = record {
    username = n.username;
    password = n.password;
    server = n.server;
  }
  run_option-IsNamed Handler.fullscreen opt i args n = record {
    username = n.username;
    password = n.password;
    server = n.server;
  }
  run_option-IsNamed Handler.debug_messages opt i args n = record {
    username = n.username;
    password = n.password;
    server = n.server;
  }
  run_option-IsNamed Handler.theme opt i args n =
      with_value-Returns IsNamed args i (λ v. ok (record opt { theme = strdup v }))
        (λ v. record { username = n.username; password = n.password; server = n.server })
  run_option-IsNamed Handler.game opt i args n =
      with_value-Returns IsNamed args i (λ v. ok (record opt { game = strdup v }))
        (λ v. record { username = n.username; password = n.password; server = n.server })
  run_option-IsNamed Handler.server opt i args n =
      with_value-Returns IsNamed args i (λ v. ok (record opt { server = strdup v }))
        (λ v. record { username = n.username; password = n.password; server = tt })
  run_option-IsNamed Handler.options opt i args n = record {
    username = n.username;
    password = n.password;
    server = n.server;
  }
  run_option-IsNamed Handler.port opt i args n =
      with_value-Returns IsNamed args i (λ v. ok (record opt { port = libc.strtol v 0 % 2 ^ 16 }))
        (λ v. record { username = n.username; password = n.password; server = n.server })
  run_option-IsNamed Handler.url opt i args n = parse_url-IsNamed libc opt i args n
  run_option-IsNamed Handler.usage opt i args n = tt

  parse_loop-IsNamed :
      (args : List (List ℕ)) (i : ℕ) (more : List (List ℕ)) (opt : Startopt)
      → IsNamed opt
      → Returns IsNamed (parse_loop libc ais args i more opt)
  unfolding parse_loop
  parse_loop-IsNamed args i [] opt n = n
  parse_loop-IsNamed args i (arg ∷ more) opt n = elim (Option-cases (option_of option_table arg)) [
    | inl e ↦ rw (parse_loop, e) (parse_loop-IsNamed args (suc i) more opt n)
    | inr (fn, e) ↦
        rw (parse_loop, e)
          (>>=-Returns IsNamed (run_option libc ais fn opt i args) _ (λ r s.
            let m = Returns-ok (λ r. IsNamed r.0) _ (run_option-IsNamed fn opt i args n) s in
            elim (r.1 == minus_one)
              as (λ b. Returns IsNamed (elim b as (λ _. Run Startopt) [
                | true ↦ ok r.0
                | false ↦ parse_loop libc ais args (suc i) more r.0
              ])) [ true ↦ m | false ↦ parse_loop-IsNamed args (suc i) more r.0 m ]))
  ]

  parse_args-IsNamed :
      (use_gui : Bool) (args : List (List ℕ)) → Returns IsNamed (parse_args libc ais use_gui args)
  unfolding parse_args defaults
  parse_args-IsNamed use_gui [] = tt
  parse_args-IsNamed use_gui (program ∷ more) =
      parse_loop-IsNamed (program ∷ more) 1 more _
        (record { username = tt; password = tt; server = tt })

  -- If `main` enters its main loop, it has called browser_add or tpe_comm_connect, with a server, a
  -- user name and a password that are not NULL.
  main-Calls :
      (use_gui event_init : Bool) (args : List (List ℕ))
      → Returns Calls (main libc ais use_gui event_init args)
  unfolding main
  main-Calls use_gui event_init args =
      >>=-Returns Calls (parse_args libc ais use_gui args) _ (λ opt e.
        let n = Returns-ok IsNamed _ (parse_args-IsNamed use_gui args) e in
        elim (Bool-cases opt.showoptions) [
          | inl s ↦ rw s tt
          | inr s ↦ elim (Bool-cases event_init) [
            | inl f ↦ rw (s, f) tt
            | inr f ↦ rw (s, f) (start-Calls opt n)
          ]
        ])
