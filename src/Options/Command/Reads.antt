-- ===== src/Options/Command/Reads.antt =====
-- The loop of galaxie.c over its arguments does what the command line asks for.
use mathlib.Core.Path.{subst}
use mathlib.Core.List.{append-nil}
use galaxie.Prelude.{
  ℕ, zero, suc, ◌≤◌, ◌<◌, ◌≡◌, refl, ◌∙◌, arith, Bool, none, some, List, [], ◌∷◌, ◌++◌, get_elem?,
  drop, length, All,
}
use galaxie.Run.{ok}
use galaxie.Wire.{minus_one}
use galaxie.Options.{Startopt, Handler, option_table, option_of, parse_option, free_str}
use galaxie.Options.Url.{Libc}
use galaxie.Options.Parse.{run_option, parse_loop, parse_args, defaults, parse_username, parse_port}
use galaxie.Options.Command.{
  Key, Flag, Item, joined, spaced, alone, key_name, set_key, set_flag, set_items, command_line,
  IsPlain, key_handler, flag_handler, option_of-key, option_of-flag, after_eq-joined,
  after_eq-spaced,
}

drop-eq-cons :
    {A : Type 0} (i : ℕ) (args : List A) (x : A) (xs : List A)
    → drop i args ≡ x ∷ xs
    → (get_elem? args i ≡ some x) × (drop (suc i) args ≡ xs) × (i < length args)
drop-eq-cons zero [] x xs h = cc
drop-eq-cons (suc i) [] x xs h = cc
drop-eq-cons zero (y ∷ args) x xs h = (cc, cc, omega arith)
drop-eq-cons (suc i) (y ∷ args) x xs h =
    let rest = drop-eq-cons i args x xs h in (rest.0, rest.1, omega (arith, rest.2))

-- The user name is one that `free` may be called for.
abbrev Ours : Startopt → Type 0
Ours opt = free_str opt.username ≡ ok tt

option_of-bare : (k : Key) → option_of option_table (key_name k) ≡ some (key_handler k)
option_of-bare k =
    subst (λ text. option_of option_table text ≡ some (key_handler k)) (append-nil (key_name k))
      (option_of-key k [])

parse_option-joined :
    (k : Key) (v : List ℕ) (args : List (List ℕ)) (i : ℕ)
    → get_elem? args i ≡ some (key_name k ++ (b'=' ∷ v))
    → parse_option args i ≡ ok (v, i)
unfolding parse_option
parse_option-joined k v args i h = rw (parse_option, h, after_eq-joined k v) refl

parse_option-spaced :
    (k : Key) (v : List ℕ) (args : List (List ℕ)) (i : ℕ)
    → get_elem? args i ≡ some (key_name k)
    → get_elem? args (suc i) ≡ some v
    → parse_option args i ≡ ok (v, suc i)
unfolding parse_option
parse_option-spaced k v args i h g = rw (parse_option, h, after_eq-spaced k, g) refl

set_key-Ours :
    (libc : Libc) (k : Key) (v : List ℕ) (opt : Startopt) → Ours opt → Ours (set_key libc k v opt)
unfolding free_str
set_key-Ours libc Key.user v opt h = refl
set_key-Ours libc Key.password v opt h = h
set_key-Ours libc Key.server v opt h = h
set_key-Ours libc Key.game v opt h = h
set_key-Ours libc Key.theme v opt h = h
set_key-Ours libc Key.port v opt h = h

set_flag-Ours : (f : Flag) (opt : Startopt) → Ours opt → Ours (set_flag f opt)
set_flag-Ours Flag.browse opt h = h
set_flag-Ours Flag.no_ai opt h = h
set_flag-Ours Flag.no_gui opt h = h
set_flag-Ours Flag.fullscreen opt h = h
set_flag-Ours Flag.options opt h = h
set_flag-Ours Flag.debug_messages opt h = h

module _ (libc : Libc) (ais : List (List ℕ)) where
  run_option-key :
      (k : Key) (v : List ℕ) (opt : Startopt) (i j : ℕ) (args : List (List ℕ))
      → Ours opt
      → parse_option args i ≡ ok (v, j)
      → run_option libc ais (key_handler k) opt i args ≡ ok (set_key libc k v opt, j)
  unfolding run_option parse_username parse_port key_handler
  run_option-key Key.user v opt i j args o h = rw (h, o) refl
  run_option-key Key.password v opt i j args o h = rw h refl
  run_option-key Key.server v opt i j args o h = rw h refl
  run_option-key Key.game v opt i j args o h = rw h refl
  run_option-key Key.theme v opt i j args o h = rw h refl
  run_option-key Key.port v opt i j args o h = rw h refl

  -- A flag but `-b` gives its own index, `-b` the next.
  run_option-flag :
      (f : Flag) (opt : Startopt) (i : ℕ) (args : List (List ℕ))
      → (j : ℕ) × (run_option libc ais (flag_handler f) opt i args ≡ ok (set_flag f opt, j))
        × (j ≤ suc i)
  unfolding run_option flag_handler
  run_option-flag Flag.browse opt i args = (suc i, refl, omega arith)
  run_option-flag Flag.no_ai opt i args = (i, refl, omega arith)
  run_option-flag Flag.no_gui opt i args = (i, refl, omega arith)
  run_option-flag Flag.fullscreen opt i args = (i, refl, omega arith)
  run_option-flag Flag.options opt i args = (i, refl, omega arith)
  run_option-flag Flag.debug_messages opt i args = (i, refl, omega arith)

  pub parse_loop-run :
      (args : List (List ℕ)) (i j : ℕ) (arg : List ℕ) (more : List (List ℕ)) (opt opt' : Startopt)
      (fn : Handler)
      → option_of option_table arg ≡ some fn
      → run_option libc ais fn opt i args ≡ ok (opt', j)
      → j < minus_one
      → parse_loop libc ais args i (arg ∷ more) opt ≡ parse_loop libc ais args (suc i) more opt'
  unfolding parse_loop
  parse_loop-run args i j arg more opt opt' fn e r h = rw (e, parse_loop, r) (ground arith)

  parse_loop-skip :
      (args : List (List ℕ)) (i : ℕ) (arg : List ℕ) (more : List (List ℕ)) (opt : Startopt)
      → option_of option_table arg ≡ none
      → parse_loop libc ais args i (arg ∷ more) opt ≡ parse_loop libc ais args (suc i) more opt
  unfolding parse_loop
  parse_loop-skip args i arg more opt e = rw e refl

  parse_loop-command_line :
      (xs : List Item) (args : List (List ℕ)) (i : ℕ) (opt : Startopt)
      → drop i args ≡ command_line xs
      → length args < minus_one
      → Ours opt
      → All IsPlain xs
      → parse_loop libc ais args i (command_line xs) opt ≡ ok (set_items libc xs opt)
  parse_loop-command_line [] args i opt d l o p = unfold parse_loop in refl
  parse_loop-command_line (joined k v ∷ xs) args i opt d l o p =
      let at = drop-eq-cons i args _ _ d in
      parse_loop-run args i i _ _ opt _ _ (option_of-key k _)
        (run_option-key k v opt i i args o (parse_option-joined k v args i at.0))
        (omega (arith, at.2))
      ∙ parse_loop-command_line xs args (suc i) (set_key libc k v opt) at.1 l
          (set_key-Ours libc k v opt o) p.1
  parse_loop-command_line (spaced k v ∷ xs) args i opt d l o p =
      let at = drop-eq-cons i args _ _ d in
      let behind = drop-eq-cons (suc i) args _ _ at.1 in
      parse_loop-run args i (suc i) _ _ opt _ _ (option_of-bare k)
        (run_option-key k v opt i (suc i) args o (parse_option-spaced k v args i at.0 behind.0))
        (omega (arith, behind.2))
      ∙ parse_loop-skip args (suc i) v _ _ p.0
      ∙ parse_loop-command_line xs args (suc (suc i)) (set_key libc k v opt) behind.1 l
          (set_key-Ours libc k v opt o) p.1
  parse_loop-command_line (alone f ∷ xs) args i opt d l o p =
      let at = drop-eq-cons i args _ _ d in
      let ran = run_option-flag f opt i args in
      parse_loop-run args i ran.0 _ _ opt _ _ (option_of-flag f) ran.1 (omega (arith, at.2, ran.2))
      ∙ parse_loop-command_line xs args (suc i) (set_flag f opt) at.1 l (set_flag-Ours f opt o) p.1

  -- A command line of the program's name and options that return (--user, --password, --server,
  -- --game, --theme and --port with their values, -b, --no-ai, --no-gui, --fullscreen,
  -- --options, --debug-messages), fewer than 2 ^ 32 - 1 arguments in all: `parse_args` sets
  -- exactly what the options ask for, in their order, on top of the defaults. A value behind a
  -- `=` may be any text; one in an argument of its own must not begin like an option.
  pub parse_args-command_line :
      (use_gui : Bool) (program : List ℕ) (xs : List Item)
      → All IsPlain xs
      → length (program ∷ command_line xs) < minus_one
      → parse_args libc ais use_gui (program ∷ command_line xs)
        ≡ ok (set_items libc xs (defaults libc ais use_gui))
  unfolding parse_args
  parse_args-command_line use_gui program xs p l =
      parse_loop-command_line xs (program ∷ command_line xs) 1 _ refl l
        (unfold defaults free_str in refl) p
