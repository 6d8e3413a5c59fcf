-- ===== src/Options/Url/Keeps.antt =====
-- What a URL on the command line of galaxie.c leaves as it was.
use mathlib.Core.Path.{subst}
use galaxie.Prelude.{
  ℕ, zero, suc, ◌≡◌, refl, arith, true, Option, none, some, List, [], ◌∷◌, get_elem?, length,
  Bool-cases, Option-cases, inl, inr,
}
use galaxie.Run.{Run, ok, undefined, ◌>>=◌, Returns, >>=-Returns, Returns-ok}
use galaxie.Options.{Str, Startopt, free_str}
use galaxie.Options.Url.{
  Match, Libc, urlpattern, written, zeroed, matched, extract, if_match, set_matches, parse_url,
}

-- `regexec` writes as many matches as it is asked for.
abbrev pub WritesAll : Libc → Type 0
WritesAll libc =
    (n : ℕ) (text : List ℕ) (found : List Match)
    → libc.regexec n text ≡ some found
    → length found ≡ n

pub if_match-Returns :
    (P : Startopt → Type 0) (matches : List Match) (k : ℕ) (opt : Startopt)
    (body : ℕ × Option ℕ → Run Startopt)
    → P opt
    → ((at : ℕ × Option ℕ) → Returns P (body at))
    → Returns P (if_match matches k opt body)
unfolding if_match
if_match-Returns P matches k opt body p h =
    elim (get_elem? matches k)
      as (λ m. Returns P (elim m as (λ _. Run Startopt) [
        | none ↦ undefined
        | some m ↦ elim (matched m) as (λ _. Run Startopt) [ none ↦ ok opt | some at ↦ body at ]
      ])) [
        | none ↦ tt
        | some m ↦
            elim (matched m)
              as (λ f.
                Returns P (elim f as (λ _. Run Startopt) [ none ↦ ok opt | some at ↦ body at ])) [
                  | none ↦ p
                  | some at ↦ h at
                ]
      ]

-- A call that keeps `P`, and what follows and keeps it too.
then-Returns :
    (P : Startopt → Type 0) (m : Run Startopt) (f : Startopt → Run Startopt)
    → Returns P m
    → ((a : Startopt) → P a → Returns P (f a))
    → Returns P (m >>= f)
then-Returns P m f h g = >>=-Returns P m f (λ a e. g a (Returns-ok P m h e))

-- A body that frees a string and sets a field.
pub free_str-Returns :
    (P : Startopt → Type 0) (s : Option Str) (opt : Startopt)
    → P opt
    → Returns P (free_str s >>= λ _. ok opt)
free_str-Returns P s opt p = >>=-Returns P (free_str s) _ (λ _ _. p)

-- What holds of the options and does not look at what the matches set holds after them too.
pub record Ignores (libc : Libc) (P : Startopt → Type 0) : Type 0 where
  pub http : (opt : Startopt) → P opt → P (record opt { http = true })
  pub ssl : (opt : Startopt) → P opt → P (record opt { ssl = true })
  pub username :
      (opt : Startopt) (text : List ℕ) (at : ℕ × Option ℕ)
      → P opt
      → P (record opt { username = extract text at })
  pub password :
      (opt : Startopt) (text : List ℕ) (at : ℕ × Option ℕ)
      → P opt
      → P (record opt { password = extract text at })
  pub server :
      (opt : Startopt) (text : List ℕ) (at : ℕ × Option ℕ)
      → P opt
      → P (record opt { server = extract text at })
  pub port : (opt : Startopt) (v : ℕ) → P opt → P (record opt { port = v })

module _ (libc : Libc) (P : Startopt → Type 0) (ignores : Ignores libc P) where
  pub set_matches-Returns :
      (str : List ℕ) (matches : List Match) (opt : Startopt)
      → P opt
      → ((opt' : Startopt)
          → P opt'
          → Returns P (
              if_match matches 10 opt'
                (λ at. free_str opt'.game >>= λ _. ok (record opt' { game = extract str at }))))
      → Returns P (set_matches libc str matches opt)
  unfolding set_matches
  set_matches-Returns str matches opt p last =
      then-Returns P _ _ (if_match-Returns P matches 1 opt _ p (λ _. ignores.http opt p)) (λ o p1.
        then-Returns P _ _ (if_match-Returns P matches 2 o _ p1 (λ _. ignores.ssl o p1)) (λ o p2.
          then-Returns P _ _
            (if_match-Returns P matches 4 o _ p2
              (λ at. free_str-Returns P o.username _ (ignores.username o str at p2)))
            (λ o p3.
              then-Returns P _ _
                (if_match-Returns P matches 6 o _ p3
                  (λ at. free_str-Returns P o.password _ (ignores.password o str at p3)))
                (λ o p4.
                  then-Returns P _ _
                    (if_match-Returns P matches 7 o _ p4
                      (λ at. free_str-Returns P o.server _ (ignores.server o str at p4)))
                    (λ o p5.
                      then-Returns P _ _
                        (if_match-Returns P matches 9 o _ p5 (λ at. ignores.port o _ p5)) last)))))

  -- What the matches keep, and the failures of the library, keep.
  pub parse_url-Returns :
      (opt : Startopt) (i : ℕ) (args : List (List ℕ))
      → P opt
      → ((nsub : ℕ) (str : List ℕ) (found : List Match)
          → libc.regcomp urlpattern ≡ some nsub
          → libc.regexec nsub str ≡ some found
          → Returns P (set_matches libc str (written (zeroed (suc nsub)) found) opt))
      → Returns (λ r. P r.0) (parse_url libc opt i args)
  unfolding parse_url
  parse_url-Returns opt i args p h = elim (Option-cases (get_elem? args i)) [
    | inl e ↦ rw (parse_url, e) tt
    | inr (str, e) ↦ elim (Option-cases (libc.regcomp urlpattern)) [
      | inl c ↦ rw (parse_url, e, c) p
      | inr (nsub, c) ↦ elim (Bool-cases (libc.calloc (suc nsub))) [
        | inr m ↦ rw (parse_url, e, c, m) p
        | inl m ↦ elim (Option-cases (libc.regexec nsub str)) [
          | inl x ↦ rw (parse_url, e, c, m, x) p
          | inr (found, x) ↦
              rw (parse_url, e, c, m, x)
                (>>=-Returns (λ r. P r.0)
                  (set_matches libc str (written (zeroed (suc nsub)) found) opt) _
                  (λ opt' r. Returns-ok P _ (h nsub str found c x) r))
        ]
      ]
    ]
  ]

get_elem?-written :
    (n : ℕ) (found : List Match)
    → length found ≡ n
    → get_elem? (written (zeroed (suc n)) found) n ≡ some (record { so = some 0; eo = some 0 })
unfolding written
get_elem?-written zero [] h = refl
get_elem?-written zero (f ∷ found) h = absurd (omega (arith, h))
get_elem?-written (suc n) [] h = absurd (omega (arith, h))
get_elem?-written (suc n) (f ∷ found) h = get_elem?-written n found (omega (arith, h))

-- Nothing is done for a match that `regexec` is not asked for.
if_match-beyond :
    (P : Startopt → Type 0) (n k : ℕ) (found : List Match) (opt : Startopt)
    (body : ℕ × Option ℕ → Run Startopt)
    → length found ≡ n
    → n ≡ k
    → P opt
    → Returns P (if_match (written (zeroed (suc n)) found) k opt body)
unfolding if_match matched
if_match-beyond P n k found opt body h e p =
    subst (λ j. Returns P (if_match (written (zeroed (suc n)) found) j opt body)) e
      (rw (if_match, get_elem?-written n found h) p)

game-Ignores : (libc : Libc) (game : Option Str) → Ignores libc (λ o. o.game ≡ game)
game-Ignores libc game = record {
  http = λ o p. p;
  ssl = λ o p. p;
  username = λ o t at p. p;
  password = λ o t at p. p;
  server = λ o t at p. p;
  port = λ o v p. p;
}

-- A URL never sets the game, in any call of `parse_url` that returns: the pattern has ten
-- groups, and regexec, which writes as many matches as it is asked for, is asked for the whole
-- match and nine of them.
pub parse_url-game :
    (libc : Libc) (opt : Startopt) (i : ℕ) (args : List (List ℕ))
    → WritesAll libc
    → libc.regcomp urlpattern ≡ some 10
    → Returns (λ r. r.0.game ≡ opt.game) (parse_url libc opt i args)
parse_url-game libc opt i args all groups =
    parse_url-Returns libc (λ o. o.game ≡ opt.game) (game-Ignores libc opt.game) opt i args refl
      (λ nsub str found c x.
        let n : nsub ≡ 10 = cc in
        set_matches-Returns libc (λ o. o.game ≡ opt.game) (game-Ignores libc opt.game) str _ opt
          refl
          (λ o p.
            if_match-beyond (λ o'. o'.game ≡ opt.game) nsub 10 found o _ (all nsub str found x) n
              p))
