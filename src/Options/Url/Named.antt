-- ===== src/Options/Url/Named.antt =====
-- What a URL on the command line of galaxie.c leaves set: the server, the user name and the password.
use galaxie.Prelude.{ℕ, Option, none, some, List}
use galaxie.Run.{Returns}
use galaxie.Options.{Str, Startopt}
use galaxie.Options.Url.{Libc, extract, parse_url}
use galaxie.Options.Url.Keeps.{
  Ignores, if_match-Returns, free_str-Returns, set_matches-Returns, parse_url-Returns,
}

-- Whether a `char *` is not NULL.
abbrev pub IsGiven : Option Str → Type 0
IsGiven none = ⊥
IsGiven (some s) = Unit {0}

pub record IsNamed (opt : Startopt) : Type 0 where
  pub username : IsGiven opt.username
  pub password : IsGiven opt.password
  pub server : IsGiven opt.server

extract-IsGiven : (text : List ℕ) (at : ℕ × Option ℕ) → IsGiven (extract text at)
unfolding extract
extract-IsGiven text (so, none) = tt
extract-IsGiven text (so, some eo) = tt

IsNamed-Ignores : (libc : Libc) → Ignores libc IsNamed
IsNamed-Ignores libc = record {
  http = λ o p. record { username = p.username; password = p.password; server = p.server };
  ssl = λ o p. record { username = p.username; password = p.password; server = p.server };
  username = λ o t at p. record {
    username = extract-IsGiven t at;
    password = p.password;
    server = p.server;
  };
  password = λ o t at p. record {
    username = p.username;
    password = extract-IsGiven t at;
    server = p.server;
  };
  server = λ o t at p. record {
    username = p.username;
    password = p.password;
    server = extract-IsGiven t at;
  };
  port = λ o v p. record { username = p.username; password = p.password; server = p.server };
}

pub parse_url-IsNamed :
    (libc : Libc) (opt : Startopt) (i : ℕ) (args : List (List ℕ))
    → IsNamed opt
    → Returns (λ r. IsNamed r.0) (parse_url libc opt i args)
parse_url-IsNamed libc opt i args p =
    parse_url-Returns libc IsNamed (IsNamed-Ignores libc) opt i args p (λ nsub str found c x.
      set_matches-Returns libc IsNamed (IsNamed-Ignores libc) str _ opt p (λ o q.
        if_match-Returns IsNamed _ 10 o _ q (λ at.
          free_str-Returns IsNamed o.game _
            (record { username = q.username; password = q.password; server = q.server }))))
