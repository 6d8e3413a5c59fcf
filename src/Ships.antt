-- ===== src/Ships.antt =====
-- tpe_ship.c: the designs of ships that a server describes. `eina_list_append` is a parameter.
use galaxie.Prelude.{
  ℕ, ◌≡◌, refl, sym, ap, ◌∙◌, Option-cases, Option, none, some, List, [], ◌∷◌, ◌++◌, ◌==◌,
  if◌then◌else◌, Bool-cases, inl, inr,
}
use galaxie.Run.{Run, ok, undefined, ◌>>=◌, >>=-eq-ok}
use galaxie.Wire.{uint64_max}
use galaxie.Parse.Fields.{Value, int, long, str, ints}
use galaxie.Parse.Packet.{tpe_util_parse_packet}

-- `struct design`
pub record Design : Type 0 where
  pub did : ℕ
  pub name : List ℕ
  pub description : List ℕ
  pub updated : ℕ

unfoldable tpe_ship_design_get : List Design → ℕ → Option Design
tpe_ship_design_get [] design = none
tpe_ship_design_get (d ∷ ds) design =
    let rest = tpe_ship_design_get ds design in if d.did == design then some d else rest

unfoldable pub tpe_ship_design_name_get : List Design → ℕ → Option (List ℕ)
tpe_ship_design_name_get [] design = none
tpe_ship_design_name_get (d ∷ ds) design =
    let rest = tpe_ship_design_name_get ds design in if d.did == design then some d.name else rest

unfoldable tpe_ship_design_updated_get : List Design → ℕ → ℕ
unfolding tpe_ship_design_get
tpe_ship_design_updated_get ds design = elim (tpe_ship_design_get ds design) [
  | none ↦ uint64_max
  | some d ↦ d.updated
]

-- What the format "ilass" stores.
unfoldable design_values : List Value → Run Design
design_values (int did ∷ long updated ∷ ints ncats cats ∷ str name ∷ str description ∷ []) =
    ok (record { did = did; name = name; description = description; updated = updated })
design_values _ = undefined

unfoldable tpe_ship_msg_design :
    (List Design → Design → List Design) → List Design → List ℕ → Run (List Design)
unfolding tpe_util_parse_packet design_values
tpe_ship_msg_design eina_list_append ds body =
    tpe_util_parse_packet body (b'i' ∷ b'l' ∷ b'a' ∷ b's' ∷ b's' ∷ []) >>= λ parsed.
    design_values parsed.values >>= λ d. ok (eina_list_append ds d)

design_get_snoc :
    (ds : List Design) (d : Design) (k : ℕ)
    → tpe_ship_design_get (ds ++ (d ∷ [])) k ≡ elim (tpe_ship_design_get ds k) [
      | some x ↦ some x
      | none ↦ if d.did == k then some d else none
    ]
unfolding tpe_ship_design_get
design_get_snoc [] d k = refl
design_get_snoc (x ∷ xs) d k = elim (Bool-cases (x.did == k)) [
  | inl t ↦ rw t refl
  | inr t ↦ rw t (design_get_snoc xs d k)
]

updated_get_snoc :
    (ds : List Design) (d : Design) (k : ℕ)
    → tpe_ship_design_updated_get (ds ++ (d ∷ [])) k ≡ elim (tpe_ship_design_get ds k) [
      | some x ↦ x.updated
      | none ↦ if d.did == k then d.updated else uint64_max
    ]
unfolding tpe_ship_design_updated_get
updated_get_snoc ds d k = elim (Option-cases (tpe_ship_design_get ds k)) [
  | inl e ↦ elim (Bool-cases (d.did == k)) [
    | inl t ↦ rw (design_get_snoc ds d k, tpe_ship_design_updated_get, e, t) refl
    | inr t ↦ rw (design_get_snoc ds d k, tpe_ship_design_updated_get, e, t) refl
  ]
  | inr (x, e) ↦ rw (design_get_snoc ds d k, tpe_ship_design_updated_get, e) refl
]

-- A description of a design that has been handled: the time of a number that was known is what it was
-- before, also where the message describes that design anew; that of a number that was not known is
-- the message's for the number of its design, and UINT64_MAX for every other. That
-- `eina_list_append` returns the list with its element at the end is assumed.
msg_design-updated_get :
    (append : List Design → Design → List Design)
    → ((ds : List Design) (d : Design) → append ds d ≡ ds ++ (d ∷ []))
    → (ds : List Design) (body : List ℕ) (out : List Design) (k : ℕ)
    → tpe_ship_msg_design append ds body ≡ ok out
    → (d : Design) × ((tpe_util_parse_packet body (b'i' ∷ b'l' ∷ b'a' ∷ b's' ∷ b's' ∷ [])
          >>= λ parsed. design_values parsed.values)
        ≡ ok d)
      × (tpe_ship_design_updated_get out k ≡ elim (tpe_ship_design_get ds k) [
        | some x ↦ x.updated
        | none ↦ if d.did == k then d.updated else uint64_max
      ])
unfolding tpe_ship_msg_design tpe_ship_design_updated_get
msg_design-updated_get append l ds body out k h =
    let (parsed, e, h') =
      >>=-eq-ok {b = out} (tpe_util_parse_packet body (b'i' ∷ b'l' ∷ b'a' ∷ b's' ∷ b's' ∷ [])) _
        h in
    let (d, e', h'') = >>=-eq-ok {b = out} (design_values parsed.values) _ h' in
    let same : append ds d ≡ out = cc in
    (
      d,
      rw (e, e') refl,
      ap (λ ds'. tpe_ship_design_updated_get ds' k) (sym same ∙ l ds d) ∙ updated_get_snoc ds d k,
    )
