-- ===== src/Options/Url.antt =====
-- galaxie.c: the argument that is a URL. The library of regular expressions is a parameter.
pub mod Reads
pub mod Keeps
pub mod Named
use Prim.Native.String.{String}
use galaxie.Prelude.{
  ℕ, suc, ◌+◌, ◌-◌, ◌%◌, ◌^◌, Bool, true, false, Option, none, some, List, [], ◌∷◌, ◌==◌,
  if◌then◌else◌, get_elem?, take, drop, replicate,
}
use galaxie.Run.{Run, ok, undefined, ◌>>=◌}
use galaxie.Options.{Str, Startopt, free_str}

-- `regmatch_t`; `none` is -1.
pub record Match : Type 0 where
  pub so : Option ℕ
  pub eo : Option ℕ

-- What galaxie.c calls of the C library. `regcomp` gives the number of groups, or none on an error;
-- `regexec` the first matches of a text, as many as it is asked for, or none if there is no match;
-- `strtol` takes the text and the base, and gives the bits of the number; `strcasecmp_eq` says
-- whether `strcasecmp` is 0, and `calloc` whether that many matches get memory.
pub record Libc : Type 0 where
  pub regcomp : String → Option ℕ
  pub regexec : ℕ → List ℕ → Option (List Match)
  pub calloc : ℕ → Bool
  pub strtol : List ℕ → ℕ → ℕ
  pub strcasecmp_eq : List ℕ → List ℕ → Bool

abbrev pub urlpattern : String
urlpattern =
    "^tp(\\+?http)?(s)?://(([[:alnum:]]+)(:([[:alnum:]]+))?@)?([[:alnum:].]+)(:([[:digit:]]+))?/([[:alnum:]]+)?$"

abbrev regex_http : ℕ
regex_http = 1

abbrev regex_ssh : ℕ
regex_ssh = 2

abbrev regex_username : ℕ
regex_username = 4

abbrev regex_password : ℕ
regex_password = 6

abbrev regex_server : ℕ
regex_server = 7

abbrev regex_port : ℕ
regex_port = 9

abbrev regex_game : ℕ
regex_game = 10

-- The array after `regexec` has written the first matches over it.
unfoldable pub written : List Match → List Match → List Match
written [] found = []
written (m ∷ matches) [] = m ∷ matches
written (m ∷ matches) (f ∷ found) = f ∷ written matches found

-- The array that `calloc` gives.
abbrev zeroed : ℕ → List Match
zeroed n = replicate n (record { so = some 0; eo = some 0 })

abbrev same_offset : Option ℕ → Option ℕ → Bool
same_offset none none = true
same_offset (some a) (some b) = a == b
same_offset _ _ = false

-- The macro `MATCH`, and the offsets of the match if it holds.
unfoldable pub matched : Match → Option (ℕ × Option ℕ)
matched m =
    if same_offset m.so m.eo
    then none
    else (elim m.so as (λ _. Option (ℕ × Option ℕ)) [ none ↦ none | some so ↦ some (so, m.eo) ])

-- The macro `EXTRACT`; an end of -1 makes a length that reaches to the end of the text.
unfoldable pub extract : List ℕ → ℕ × Option ℕ → Option Str
extract str (so, none) = some (record { chars = drop so str; talloced = true })
extract str (so, some eo) = some (record { chars = take (eo - so) (drop so str); talloced = true })

-- `if (MATCH(matches, k)) ...`
unfoldable pub if_match : List Match → ℕ → Startopt → (ℕ × Option ℕ → Run Startopt) → Run Startopt
unfolding matched
if_match matches k opt body = elim (get_elem? matches k) [
  | none ↦ undefined
  | some m ↦ elim (matched m) [ none ↦ ok opt | some at ↦ body at ]
]

module _ (libc : Libc) where
  -- What the matches set.
  unfoldable pub set_matches : List ℕ → List Match → Startopt → Run Startopt
  set_matches str matches opt =
      if_match matches regex_http opt (λ at. ok (record opt { http = true })) >>= λ opt.
      if_match matches regex_ssh opt (λ at. ok (record opt { ssl = true })) >>= λ opt.
      if_match matches regex_username opt
        (λ at. free_str opt.username >>= λ _. ok (record opt { username = extract str at }))
      >>= λ opt.
          if_match matches regex_password opt
            (λ at. free_str opt.password >>= λ _. ok (record opt { password = extract str at }))
          >>= λ opt.
              if_match matches regex_server opt
                (λ at. free_str opt.server >>= λ _. ok (record opt { server = extract str at }))
              >>= λ opt.
                  if_match matches regex_port opt
                    (λ at. ok (record opt { port = libc.strtol (drop at.0 str) 10 % 2 ^ 16 }))
                  >>= λ opt.
                      if_match matches regex_game opt
                        (λ at. free_str opt.game >>= λ _. ok (record opt { game = extract str at }))

  -- The options and the number returned.
  unfoldable pub parse_url : Startopt → ℕ → List (List ℕ) → Run (Startopt × ℕ)
  unfolding set_matches written
  parse_url opt i args = elim (get_elem? args i) [
    | none ↦ undefined
    | some str ↦ elim (libc.regcomp urlpattern) [
      | none ↦ ok (opt, 1)
      | some nsub ↦
          if libc.calloc (suc nsub)
          then (elim (libc.regexec nsub str) [
            | none ↦ ok (opt, 1)
            | some found ↦
                set_matches str (written (zeroed (suc nsub)) found) opt >>= λ opt'. ok (opt', i)
          ])
          else ok (opt, 1)
    ]
  ]
