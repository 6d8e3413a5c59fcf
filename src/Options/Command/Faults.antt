-- ===== src/Options/Command/Faults.antt =====
-- The command line on which galaxie.c frees what it may not free.
use galaxie.Prelude.{ℕ, ◌≡◌, refl, ◌∙◌, arith, Bool, true, some, List, [], ◌∷◌, ◌++◌}
use galaxie.Run.{undefined}
use galaxie.Options.{Handler, option_table, option_of, free_str}
use galaxie.Options.Url.{Libc, urlpattern}
use galaxie.Options.Url.Reads.{UrlParts, print_url, url_matches, IsFull, parse_url-print_url}
use galaxie.Options.Parse.{parse_args, defaults}
use galaxie.Options.Command.{Key, key_name}
use galaxie.Options.Command.Reads.{parse_loop-run}

module _ (libc : Libc) (ais : List (List ℕ)) (groups : libc.regcomp urlpattern ≡ some 10)
    (memory : libc.calloc 11 ≡ true) where
  -- A user name given after a URL that has one is undefined behaviour: parse_username calls free for
  -- the string that talloc_strndup made of the URL's.
  parse_args-url_user :
      (u : UrlParts) (use_gui : Bool) (program v : List ℕ)
      → IsFull u
      → libc.regexec 10 (print_url u) ≡ some (url_matches u)
      → parse_args libc ais use_gui (program ∷ print_url u ∷ (key_name Key.user ++ (b'=' ∷ v)) ∷ [])
        ≡ undefined
  unfolding parse_args
  parse_args-url_user u use_gui program v full exec =
      let user_arg = key_name Key.user ++ (b'=' ∷ v) in
      let args = program ∷ print_url u ∷ user_arg ∷ [] in
      parse_loop-run libc ais args 1 1 (print_url u) (user_arg ∷ []) (defaults libc ais use_gui) _
        Handler.url (unfold option_of option_table in refl)
        (parse_url-print_url libc groups memory u _ 1 args full
          (unfold defaults free_str in record { username = refl; password = refl; server = refl })
          exec refl)
        (omega arith)
      ∙ refl
