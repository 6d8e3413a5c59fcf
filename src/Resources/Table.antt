-- ===== src/Resources/Table.antt =====
-- The searches in the list of resources, when the list changes.
use galaxie.Prelude.{
  ℕ, ◌≡◌, ◌≢◌, refl, ◌∙◌, arith, Option, none, some, List, [], ◌∷◌, ◌++◌, ◌==◌, if◌then◌else◌,
  Bool-cases, Option-cases, inl, inr,
}
use galaxie.Resources.{
  Resource, empty_resource, tpe_resources_resourcedescription_get, put_resource, resource_for,
}

abbrev pub LinksAtEnd : (List Resource → Resource → List Resource) → Type 0
LinksAtEnd append = (rs : List Resource) (r : Resource) → append rs r ≡ rs ++ (r ∷ [])

pub get-put :
    (rs : List Resource) (r : Resource) (k : ℕ)
    → tpe_resources_resourcedescription_get (put_resource rs r) k ≡ (
        if k == r.id
        then elim (tpe_resources_resourcedescription_get rs k) [ none ↦ none | some _ ↦ some r ]
        else tpe_resources_resourcedescription_get rs k)
unfolding tpe_resources_resourcedescription_get put_resource
get-put [] r k = ground arith
get-put (x ∷ xs) r k = elim (Bool-cases (x.id == r.id)) [
  | inl t ↦ elim (Bool-cases (k == r.id)) [
    | inl u ↦ ground (arith, t, u)
    | inr u ↦ ground (arith, t, u)
  ]
  | inr t ↦ elim (Bool-cases (x.id == k)) [
    | inl u ↦ ground (arith, t, u)
    | inr u ↦ rw (t, u) (get-put xs r k)
  ]
]

get_snoc :
    (rs : List Resource) (r : Resource) (k : ℕ)
    → tpe_resources_resourcedescription_get (rs ++ (r ∷ [])) k
      ≡ elim (tpe_resources_resourcedescription_get rs k) [
        | some x ↦ some x
        | none ↦ if r.id == k then some r else none
      ]
unfolding tpe_resources_resourcedescription_get
get_snoc [] r k = refl
get_snoc (x ∷ xs) r k = elim (Bool-cases (x.id == k)) [
  | inl u ↦ rw u refl
  | inr u ↦ rw u (get_snoc xs r k)
]

get_id :
    (rs : List Resource) (k : ℕ) (r : Resource)
    → tpe_resources_resourcedescription_get rs k ≡ some r
    → r.id ≡ k
unfolding tpe_resources_resourcedescription_get
get_id [] k r h = cc
get_id (x ∷ xs) k r h = elim (Bool-cases (x.id == k)) [
  | inl t ↦ ground (arith, t, h)
  | inr t ↦ get_id xs k r (rw (t, tpe_resources_resourcedescription_get) at h)
]

unchanged :
    (found : Option Resource) (r : Resource) (k : ℕ)
    → k ≢ r.id
    → (elim found as (λ f. Option Resource) [
      | some x ↦ some x
      | none ↦ if r.id == k then some r else none
    ])
      ≡ found
unchanged none r k h = ground (arith, h)
unchanged (some x) r k h = refl

-- The list that the handler fills has the resource, and the other resources as they were.
pub resource_for_lem :
    (append : List Resource → Resource → List Resource) (rs : List Resource) (id : ℕ)
    → LinksAtEnd append
    → (r : Resource) × ((resource_for append rs id).1.id ≡ id)
      × (tpe_resources_resourcedescription_get (resource_for append rs id).0 id ≡ some r)
      × ((k : ℕ)
          → k ≢ id
          → tpe_resources_resourcedescription_get (resource_for append rs id).0 k
            ≡ tpe_resources_resourcedescription_get rs k)
unfolding resource_for
resource_for_lem append rs id l =
    elim (Option-cases (tpe_resources_resourcedescription_get rs id)) [
      | inl e ↦
          rw (e, resource_for, l)
            (
              empty_resource id,
              refl,
              get_snoc rs (empty_resource id) id ∙ rw e (ground arith),
              λ k n.
                  get_snoc rs (empty_resource id) k
                  ∙ unchanged (tpe_resources_resourcedescription_get rs k) (empty_resource id) k n,
            )
      | inr (r, e) ↦ rw (e, resource_for) (r, get_id rs id r e, e, λ k n. refl)
    ]
