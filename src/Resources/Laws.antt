-- ===== src/Resources/Laws.antt =====
-- A resource that is described is found, and the search by name finds none.
use galaxie.Prelude.{
  ℕ, ◌<◌, ◌≡◌, ◌≢◌, refl, ◌∙◌, arith, some, List, [], ◌∷◌, ◌++◌, ◌==◌, if◌then◌else◌, All, length,
  Bool-cases, inl, inr,
}
use galaxie.Run.{ok, ◌>>=◌, >>=_then}
use galaxie.Wire.{IsU32, IsU64, be32, be64}
use galaxie.Parse.{at, skip_words}
use galaxie.Parse.Fields.{field, int_case}
use galaxie.Parse.Packet.{parse_from, tpe_util_parse_packet}
use galaxie.Parse.RoundTrip.Strings.{read_int-be32, read_long-be64, extract-str_chunk}
use galaxie.Server.Format.{str_chunk}
use galaxie.Board.{first_int}
use galaxie.Objects.{Object, Objects, objtype_planet, tpe_obj_home_check}
use galaxie.Resources.Table.{LinksAtEnd, get-put, resource_for_lem}
use galaxie.Resources.{
  resource_format, Resource, tpe_resources_resourcedescription_get,
  tpe_resources_resourcedescription_msg, tpe_resources_resourcedescription_get_by_name, filled,
  put_resource, resource_for,
}

-- A string that goes through the packet.
abbrev IsText : List ℕ → Type 0
IsText s = All (λ b. b ≢ 0) s × (length s < 1997)

abbrev text : List ℕ → List ℕ
text s = (str_chunk s []).bytes

-- The message that describes a resource, and what follows.
abbrev pub resource_body :
    (id : ℕ) (name names unit units description : List ℕ) (weight size updated : ℕ) (more : List ℕ)
    → List ℕ
resource_body id name names unit units description weight size updated more =
    be32 id
    ++ (text name
        ++ (text names
            ++ (text unit
                ++ (text units
                    ++ (text description
                        ++ (be32 weight ++ (be32 size ++ (be64 updated ++ more))))))))

-- The values of a message.
abbrev pub described :
    (id : ℕ) (name names unit units description : List ℕ) (weight size updated : ℕ) → Resource
described id name names unit units description weight size updated = record {
  id = id;
  name = some name;
  name_plural = some names;
  unit = some unit;
  unit_plural = some units;
  description = some description;
  weight = weight;
  size = size;
  updated = updated;
}

skip_id : (id : ℕ) (more : List ℕ) → skip_words 1 (at (be32 id ++ more)) ≡ at more
unfolding skip_words be32
skip_id id more = ground arith

first_id :
    (id : ℕ) (more : List ℕ)
    → IsU32 id
    → (tpe_util_parse_packet (be32 id ++ more) (b'i' ∷ []) >>= λ first. first_int first.values)
      ≡ ok id
unfolding tpe_util_parse_packet parse_from field int_case first_int
first_id id more h = rw (read_int-be32 id more h) refl

parse_resource :
    (id : ℕ) (name names unit units description : List ℕ) (weight size updated : ℕ) (more : List ℕ)
    (r : Resource)
    → IsText name
    → IsText names
    → IsText unit
    → IsText units
    → IsText description
    → IsU32 weight
    → IsU32 size
    → IsU64 updated
    → r.id ≡ id
    → (tpe_util_parse_packet
          (resource_body id name names unit units description weight size updated more)
          resource_format
        >>= λ parsed. filled r parsed.values)
      ≡ ok (described id name names unit units description weight size updated)
unfolding tpe_util_parse_packet parse_from field filled
parse_resource id name names unit units description weight size updated more r t₁ t₂ t₃ t₄ t₅ w z u
      e =
    let b₇ = be64 updated ++ more in
    let b₆ = be32 size ++ b₇ in
    let b₅ = be32 weight ++ b₆ in
    let b₄ = text description ++ b₅ in
    let b₃ = text units ++ b₄ in
    let b₂ = text unit ++ b₃ in
    let b₁ = text names ++ b₂ in
    rw
      (
        skip_id id (text name ++ b₁),
        extract-str_chunk name b₁ t₁.0 t₁.1,
        extract-str_chunk names b₂ t₂.0 t₂.1,
        extract-str_chunk unit b₃ t₃.0 t₃.1,
        extract-str_chunk units b₄ t₄.0 t₄.1,
        extract-str_chunk description b₅ t₅.0 t₅.1,
        read_int-be32 weight b₆ w,
        read_int-be32 size b₇ z,
        read_long-be64 updated more u,
        e,
      )
      refl

-- A description of a resource, with texts of fewer than 1997 bytes without NUL and numbers that fit,
-- is handled, and then the resource of that number is found with what the description says, whether
-- it was known or not, and every other number finds what it found before. That `eina_list_append`
-- returns the list with its element at the end is assumed.
pub resource_msg-get :
    (append : List Resource → Resource → List Resource)
    → LinksAtEnd append
    → (rs : List Resource) (id : ℕ) (name names unit units description : List ℕ)
      (weight size updated : ℕ) (more : List ℕ)
    → IsU32 id
    → IsText name
    → IsText names
    → IsText unit
    → IsText units
    → IsText description
    → IsU32 weight
    → IsU32 size
    → IsU64 updated
    → (k : ℕ)
    → (out : List Resource) × (tpe_resources_resourcedescription_msg append rs
          (resource_body id name names unit units description weight size updated more)
        ≡ ok out)
      × (tpe_resources_resourcedescription_get out k ≡ (
          if k == id
          then some (described id name names unit units description weight size updated)
          else tpe_resources_resourcedescription_get rs k))
unfolding tpe_resources_resourcedescription_msg first_int
resource_msg-get append l rs id name names unit units description weight size updated more h t₁ t₂
      t₃ t₄ t₅ w z u k =
    let body = resource_body id name names unit units description weight size updated more in
    let d = described id name names unit units description weight size updated in
    let found = resource_for append rs id in
    let (old, e, g, others) = resource_for_lem append rs id l in
    let first =
      first_id id
        (text name
          ++ (text names
              ++ (text unit
                  ++ (text units
                      ++ (text description
                          ++ (be32 weight ++ (be32 size ++ (be64 updated ++ more))))))))
        h in
    let parsed =
      parse_resource id name names unit units description weight size updated more found.1 t₁ t₂ t₃
        t₄ t₅ w z u e in
    (
      put_resource found.0 d,
      >>=_then (tpe_util_parse_packet body (b'i' ∷ [])) _ _ first
          ∙ >>=_then (tpe_util_parse_packet body resource_format) (λ p. filled found.1 p.values)
              (λ r. ok (put_resource found.0 r)) parsed,
      get-put found.0 d k ∙ elim (Bool-cases (k == id)) [
        | inl t ↦ let same : k ≡ id = ground (arith, t) in rw (t, same, g) refl
        | inr t ↦ let other : k ≢ id = (λ q. ground (arith, t, q)) in rw t (others k other)
      ],
    )

-- The check for the home planet, with the number that the search for the resource of that name
-- returns, leaves every planet's object table as it is: no home planet is found.
home_check_unset :
    {H : Type 0} (rs : List Resource) (name : List ℕ) (obj : Objects H) (o : Object)
    → o.type ≡ objtype_planet
    → (tpe_resources_resourcedescription_get_by_name rs name >>= λ hptype.
        tpe_obj_home_check hptype obj o)
      ≡ ok obj
unfolding tpe_resources_resourcedescription_get_by_name tpe_obj_home_check
home_check_unset rs name obj o h = ground (arith, h)
