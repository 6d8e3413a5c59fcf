-- ===== src/Resources.antt =====
-- tpe_resources.c: the resources that a server describes. `eina_list_append` is a parameter.
pub mod Table
pub mod Laws
mod Tests
use galaxie.Prelude.{ℕ, true, Option, none, some, List, [], ◌∷◌, ◌==◌, if◌then◌else◌, bytes_eq}
use galaxie.Run.{Run, ok, undefined, ◌>>=◌}
use galaxie.Wire.{minus_one}
use galaxie.Parse.Fields.{Value, int, long, str}
use galaxie.Parse.Packet.{tpe_util_parse_packet}
use galaxie.Board.{first_int}

-- `struct resourcedescription`
pub record Resource : Type 0 where
  pub id : ℕ
  pub name : Option (List ℕ)
  pub name_plural : Option (List ℕ)
  pub unit : Option (List ℕ)
  pub unit_plural : Option (List ℕ)
  pub description : Option (List ℕ)
  pub weight : ℕ
  pub size : ℕ
  pub updated : ℕ

abbrev pub empty_resource : ℕ → Resource
empty_resource id = record {
  id = id;
  name = none;
  name_plural = none;
  unit = none;
  unit_plural = none;
  description = none;
  weight = 0;
  size = 0;
  updated = 0;
}

unfoldable pub tpe_resources_resourcedescription_get : List Resource → ℕ → Option Resource
tpe_resources_resourcedescription_get [] id = none
tpe_resources_resourcedescription_get (r ∷ rs) id =
    let rest = tpe_resources_resourcedescription_get rs id in if r.id == id then some r else rest

unfoldable tpe_resources_resourcedescription_updated : List Resource → ℕ → ℕ
unfolding tpe_resources_resourcedescription_get
tpe_resources_resourcedescription_updated rs id =
    elim (tpe_resources_resourcedescription_get rs id) [ none ↦ 0 | some r ↦ r.updated ]

abbrev pub resource_format : List ℕ
resource_format = b'-' ∷ b's' ∷ b's' ∷ b's' ∷ b's' ∷ b's' ∷ b'i' ∷ b'i' ∷ b'l' ∷ []

-- What the format "-sssssiil" stores in a resource. The letters that are read are nine, so that the
-- count is 9 when the parse returns.
unfoldable pub filled : Resource → List Value → Run Resource
filled r
      (str name
        ∷ str name_plural
        ∷ str unit
        ∷ str unit_plural
        ∷ str description
        ∷ int weight
        ∷ int size
        ∷ long updated
        ∷ []) =
    ok (record r {
      name = some name;
      name_plural = some name_plural;
      unit = some unit;
      unit_plural = some unit_plural;
      description = some description;
      weight = weight;
      size = size;
      updated = updated;
    })
filled r _ = undefined

-- The list, once the resource that the search finds has changed to `r`.
unfoldable pub put_resource : List Resource → Resource → List Resource
put_resource [] r = []
put_resource (x ∷ xs) r = let rest = put_resource xs r in if x.id == r.id then r ∷ xs else x ∷ rest

-- The list with the resource of that number in it, and that resource.
unfoldable pub resource_for :
    (List Resource → Resource → List Resource) → List Resource → ℕ → List Resource × Resource
unfolding tpe_resources_resourcedescription_get
resource_for eina_list_append rs id = elim (tpe_resources_resourcedescription_get rs id) [
  | some r ↦ (rs, r)
  | none ↦ (eina_list_append rs (empty_resource id), empty_resource id)
]

unfoldable pub tpe_resources_resourcedescription_msg :
    (List Resource → Resource → List Resource) → List Resource → List ℕ → Run (List Resource)
unfolding tpe_util_parse_packet resource_for filled put_resource first_int
tpe_resources_resourcedescription_msg eina_list_append rs body =
    tpe_util_parse_packet body (b'i' ∷ []) >>= λ first. first_int first.values >>= λ id.
    let found = resource_for eina_list_append rs id in
    tpe_util_parse_packet body resource_format >>= λ parsed.
    filled found.1 parsed.values >>= λ r. ok (put_resource found.0 r)

-- The search behind the guard. A name that is NULL is given to `strcmp`.
unfoldable search_name : List Resource → List ℕ → Run ℕ
search_name [] name = ok minus_one
search_name (r ∷ rs) name = elim r.name [
  | none ↦ undefined
  | some n ↦ if bytes_eq n name then ok r.id else search_name rs name
]

-- The guard's `name == name` compares a pointer with itself.
unfoldable pub tpe_resources_resourcedescription_get_by_name : List Resource → List ℕ → Run ℕ
unfolding search_name
tpe_resources_resourcedescription_get_by_name rs name =
    let name_is_name = true in if name_is_name then ok minus_one else search_name rs name
