-- ===== src/Options/Url/Reads.antt =====
-- What galaxie.c reads from a URL with a user name, a password and a port.
use galaxie.Prelude.{
  ℕ, ◌+◌, ◌-◌, ◌%◌, ◌^◌, ◌<◌, ◌≡◌, refl, ap, ◌∙◌, arith, true, Option, none, some, List, [], ◌∷◌,
  ◌++◌, get_elem?, drop, length, drop-add, drop-length_append, take-length_append,
}
use galaxie.Run.{Run, ok, ◌>>=◌}
use galaxie.Options.{Str, Startopt, free_str}
use galaxie.Options.Url.{
  Match, Libc, urlpattern, written, zeroed, matched, extract, if_match, set_matches, parse_url,
}

pub record UrlParts : Type 0 where
  pub user : List ℕ
  pub password : List ℕ
  pub server : List ℕ
  pub port : List ℕ

-- `tp://user:password@server:port/`
abbrev pub print_url : UrlParts → List ℕ
print_url u =
    b't'
    ∷ b'p'
    ∷ b':'
    ∷ b'/'
    ∷ b'/'
    ∷ (u.user ++ (b':' ∷ (u.password ++ (b'@' ∷ (u.server ++ (b':' ∷ (u.port ++ (b'/' ∷ []))))))))

abbrev span : ℕ → ℕ → Match
span so eo = record { so = some so; eo = some eo }

abbrev no_match : Match
no_match = record { so = none; eo = none }

-- The first ten matches of the pattern in it.
abbrev pub url_matches : UrlParts → List Match
url_matches u =
    let user_end = 5 + length u.user in
    let password_end = user_end + 1 + length u.password in
    let server_end = password_end + 1 + length u.server in
    let port_end = server_end + 1 + length u.port in
    span 0 (port_end + 1)
    ∷ no_match
    ∷ no_match
    ∷ span 5 (password_end + 1)
    ∷ span 5 user_end
    ∷ span user_end password_end
    ∷ span (user_end + 1) password_end
    ∷ span (password_end + 1) server_end
    ∷ span server_end port_end
    ∷ span (server_end + 1) port_end
    ∷ []

-- No part of the URL is empty.
pub record IsFull (u : UrlParts) : Type 0 where
  pub user : 0 < length u.user
  pub password : 0 < length u.password
  pub server : 0 < length u.server
  pub port : 0 < length u.port

abbrev part : List ℕ → Option Str
part text = some (record { chars = text; talloced = true })

abbrev pub url_options : Libc → UrlParts → Startopt → Startopt
url_options libc u opt = record opt {
  username = part u.user;
  password = part u.password;
  server = part u.server;
  port = libc.strtol (u.port ++ (b'/' ∷ [])) 10 % 2 ^ 16;
}

-- `free` may be called for each of the strings.
pub record IsFreeable (opt : Startopt) : Type 0 where
  pub username : free_str opt.username ≡ ok tt
  pub password : free_str opt.password ≡ ok tt
  pub server : free_str opt.server ≡ ok tt

-- A call that returns, and what follows.
>>=_step {ℓ κ} :
    {A : Type ℓ} {B : Type κ} (m : Run A) (f : A → Run B) (a : A) {r : Run B}
    → m ≡ ok a
    → f a ≡ r
    → (m >>= f) ≡ r
>>=_step m f a e g = ap (λ m. m >>= f) e ∙ g

behind : (n : ℕ) (xs a rest : List ℕ) → drop n xs ≡ a ++ rest → drop (n + length a) xs ≡ rest
behind n xs a rest h = drop-add n (length a) xs ∙ ap (drop (length a)) h ∙ drop-length_append a rest

extract-part :
    (str a rest : List ℕ) (so eo : ℕ)
    → drop so str ≡ a ++ rest
    → eo ≡ so + length a
    → extract str (so, some eo) ≡ part a
unfolding extract
extract-part str a rest so eo h e =
    let n : eo - so ≡ length a = omega arith in rw (n, h) (ap part (take-length_append a rest))

if_match_found :
    (matches : List Match) (k : ℕ) (opt : Startopt) (body : ℕ × Option ℕ → Run Startopt) (so eo : ℕ)
    → get_elem? matches k ≡ some (span so eo)
    → so < eo
    → if_match matches k opt body ≡ body (so, some eo)
unfolding if_match matched
if_match_found matches k opt body so eo h l = rw (if_match, h) (ground arith)

if_match_none :
    (matches : List Match) (k : ℕ) (opt : Startopt) (body : ℕ × Option ℕ → Run Startopt)
    → get_elem? matches k ≡ some no_match
    → if_match matches k opt body ≡ ok opt
unfolding if_match matched
if_match_none matches k opt body h = rw (if_match, h) refl

-- The match that the array has room for and `regexec` is not asked for.
if_match_zero :
    (matches : List Match) (k : ℕ) (opt : Startopt) (body : ℕ × Option ℕ → Run Startopt)
    → get_elem? matches k ≡ some (span 0 0)
    → if_match matches k opt body ≡ ok opt
unfolding if_match matched
if_match_zero matches k opt body h = rw (if_match, h) refl

store_part :
    (s : Option Str) (str a : List ℕ) (at : ℕ × Option ℕ) (set : Option Str → Startopt)
    → free_str s ≡ ok tt
    → extract str at ≡ part a
    → (free_str s >>= λ _. ok (set (extract str at))) ≡ ok (set (part a))
store_part s str a at set f e = rw (f, e) refl

module _ (libc : Libc) where
  set_matches-url :
      (u : UrlParts) (opt : Startopt)
      → IsFull u
      → IsFreeable opt
      → set_matches libc (print_url u) (written (zeroed 11) (url_matches u)) opt
        ≡ ok (url_options libc u opt)
  unfolding set_matches written
  set_matches-url u opt full free =
      let str = print_url u in
      let user_end : ℕ = 5 + length u.user in
      let password_end : ℕ = user_end + 1 + length u.password in
      let server_end : ℕ = password_end + 1 + length u.server in
      let at_colon = behind 5 str u.user _ refl in
      let at_password = behind user_end str (b':' ∷ []) _ at_colon in
      let at_at = behind (user_end + 1) str u.password _ at_password in
      let at_server = behind password_end str (b'@' ∷ []) _ at_at in
      let at_port_colon = behind (password_end + 1) str u.server _ at_server in
      let at_port = behind server_end str (b':' ∷ []) _ at_port_colon in
      let named : Startopt = record opt { username = part u.user } in
      let secured : Startopt = record named { password = part u.password } in
      let placed : Startopt = record secured { server = part u.server } in
      >>=_step _ _ opt (if_match_none _ 1 opt _ refl) (
        >>=_step _ _ opt (if_match_none _ 2 opt _ refl) (
          >>=_step _ _ named
            (if_match_found _ 4 opt _ _ _ refl (omega (arith, full.user))
              ∙ store_part _ _ _ _ (λ s. record opt { username = s }) free.username
                  (extract-part str u.user _ 5 user_end refl refl))
            (>>=_step _ _ secured
              (if_match_found _ 6 named _ _ _ refl (omega (arith, full.password))
                ∙ store_part _ _ _ _ (λ s. record named { password = s }) free.password
                    (extract-part str u.password _ (user_end + 1) password_end at_password refl))
              (>>=_step _ _ placed
                (if_match_found _ 7 secured _ _ _ refl (omega (arith, full.server))
                  ∙ store_part _ _ _ _ (λ s. record secured { server = s }) free.server
                      (extract-part str u.server _ (password_end + 1) server_end at_server refl))
                (>>=_step _ _ (url_options libc u opt)
                  (if_match_found _ 9 placed _ _ _ refl (omega (arith, full.port))
                    ∙ ap (λ text. ok (record placed { port = libc.strtol text 10 % 2 ^ 16 }))
                        at_port)
                  (if_match_zero _ 10 _ _ refl))))))

  module _ (groups : libc.regcomp urlpattern ≡ some 10) (memory : libc.calloc 11 ≡ true) where
    -- A URL with a user name, a password, a server and a port, none of them empty, that the
    -- pattern matches as it stands, with ten groups: where the calloc succeeds and the strings
    -- that were set before may be freed, `parse_url` takes from it the user name, the password,
    -- the server and the number at the port, and changes nothing else.
    pub parse_url-print_url :
        (u : UrlParts) (opt : Startopt) (i : ℕ) (args : List (List ℕ))
        → IsFull u
        → IsFreeable opt
        → libc.regexec 10 (print_url u) ≡ some (url_matches u)
        → get_elem? args i ≡ some (print_url u)
        → parse_url libc opt i args ≡ ok (url_options libc u opt, i)
    unfolding parse_url
    parse_url-print_url u opt i args full free exec at =
        rw (parse_url, at, groups, memory, exec)
          (ap (λ m. m >>= λ opt'. ok (opt', i)) (set_matches-url u opt full free))
