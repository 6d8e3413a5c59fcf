-- ===== src/Objects/Children.antt =====
-- objects.c: `tpe_obj_update_children`, the children of an object that has changed. No code calls it.
use galaxie.Prelude.{
  ℕ, ◌≡◌, refl, arith, Bool, true, false, Option, none, some, List, [], ◌∷◌, ◌==◌, if◌then◌else◌,
  length, get_elem?, All, Bool-cases, Option-cases, inl, inr,
}
use galaxie.Run.{
  Run, ok, undefined, ◌>>=◌, Returns, >>=-Returns, Returns-ok, Returns-map, >>=-eq-ok,
}
use galaxie.Wire.{minus_one}
use galaxie.Objects.{
  EinaHash, Object, Objects, empty_object, stored, tpe_obj_obj_get_by_id, tpe_obj_obj_add,
}

abbrev has_child : ℕ → List ℕ → Bool
has_child oid [] = false
has_child oid (c ∷ cs) = let rest = has_child oid cs in if oid == c then true else rest

module _ {H : Type 0} (hash : EinaHash H Object) where
  -- What is done about an old child that is no longer one.
  unfoldable lose : Objects H → Object → ℕ → Run (Objects H)
  unfolding tpe_obj_obj_get_by_id tpe_obj_obj_add
  lose obj o oid = elim (tpe_obj_obj_get_by_id hash obj oid) [
    | none ↦ tpe_obj_obj_add hash obj oid >>= λ added.
        ok (stored hash added.0 oid (record added.1 { isnew = true; server = true }))
    | some child ↦ ok (
        if child.parent == o.oid
        then stored hash obj oid (record child { parent = minus_one; updated = 1 })
        else obj)
  ]

  -- The first loop, over `old`, the entries of `oldchildren` that are left. The search for entry `i`
  -- ends at `j == nchildren`, and it is entry `j` that is looked up.
  unfoldable pub lose_old : Objects H → Object → List ℕ → List ℕ → Run (Objects H)
  unfolding lose
  lose_old obj o oldchildren [] = ok obj
  lose_old obj o oldchildren (c ∷ old) =
      (if has_child c o.children then ok obj else elim (get_elem? oldchildren (length o.children)) [
        | none ↦ undefined
        | some oid ↦ lose obj o oid
      ])
      >>= λ obj'. lose_old obj' o oldchildren old

  -- A round of the second loop.
  unfoldable pub adopt : Objects H → Object → ℕ → Run (Objects H)
  unfolding tpe_obj_obj_get_by_id tpe_obj_obj_add
  adopt obj o c = elim (tpe_obj_obj_get_by_id hash obj c) [
    | none ↦ tpe_obj_obj_add hash obj c >>= λ added. ok (
        stored hash added.0 c
          (record added.1 { updated = 1; isnew = true; parent = o.oid; server = true }))
    | some child ↦ ok (
        if child.parent == o.oid
        then obj
        else stored hash obj c (record child { parent = o.oid; updated = 1 }))
  ]

  unfoldable pub adopt_all : Objects H → Object → List ℕ → Run (Objects H)
  unfolding adopt
  adopt_all obj o [] = ok obj
  adopt_all obj o (c ∷ cs) = adopt obj o c >>= λ obj'. adopt_all obj' o cs

  unfoldable pub tpe_obj_update_children : Objects H → Object → List ℕ → Run (Objects H)
  unfolding lose_old adopt_all
  tpe_obj_update_children obj o oldchildren =
      lose_old obj o oldchildren oldchildren >>= λ obj'. adopt_all obj' o o.children

-- The object is known, and a child of that number.
abbrev pub is_child_of : ℕ → Option Object → Bool
is_child_of oid none = false
is_child_of oid (some child) = child.parent == oid

module _ {H : Type 0} (hash : EinaHash H Object) where
  abbrev IsChild : Object → ℕ → Objects H → Type 0
  IsChild o c obj = is_child_of o.oid (hash.find obj.objhash c) ≡ true

  stored-IsChild :
      (obj : Objects H) (o child : Object) (k c : ℕ)
      → child.parent ≡ o.oid
      → (if c == k then true else is_child_of o.oid (hash.find obj.objhash c)) ≡ true
      → IsChild o c (stored hash obj k child)
  stored-IsChild obj o child k c e h =
      rw (hash.find-set obj.objhash k child c)
        (elim (Bool-cases (c == k)) [ inl t ↦ rw t (ground (arith, e)) | inr t ↦ rw t (rw t at h) ])

  -- What a round leaves: the child is one, and those that were stay.
  abbrev Adopted : Objects H → Object → ℕ → Objects H → Type 0
  Adopted obj o c out = IsChild o c out × ((d : ℕ) → IsChild o d obj → IsChild o d out)

  get_by_id_find :
      (obj : Objects H) (c : ℕ) (child : Object)
      → tpe_obj_obj_get_by_id hash obj c ≡ some child
      → hash.find obj.objhash c ≡ some child
  unfolding tpe_obj_obj_get_by_id
  get_by_id_find obj c child h = ground (arith, h)

  stored-Adopted :
      (obj : Objects H) (o child : Object) (c : ℕ)
      → child.parent ≡ o.oid
      → Adopted obj o c (stored hash obj c child)
  stored-Adopted obj o child c e = (
    stored-IsChild obj o child c c e (ground arith),
    λ d h.
        stored-IsChild obj o child c d e
          (elim (Bool-cases (d == c)) [ inl t ↦ rw t refl | inr t ↦ rw t h ]),
  )

  -- A new child is stored twice.
  added-Adopted :
      (obj : Objects H) (o fresh child : Object) (c : ℕ)
      → child.parent ≡ o.oid
      → Adopted obj o c (stored hash (stored hash obj c fresh) c child)
  added-Adopted obj o fresh child c e = (
    stored-IsChild (stored hash obj c fresh) o child c c e (ground arith),
    λ d h. stored-IsChild (stored hash obj c fresh) o child c d e (elim (Bool-cases (d == c)) [
      | inl t ↦ rw t refl
      | inr t ↦ rw (t, hash.find-set obj.objhash c fresh d, t) h
    ]),
  )

  add_adopt-Adopted :
      (obj : Objects H) (o : Object) (c : ℕ)
      → Returns (Adopted obj o c) (
          tpe_obj_obj_add hash obj c >>= λ added. ok (
            stored hash added.0 c
              (record added.1 { updated = 1; isnew = true; parent = o.oid; server = true })))
  unfolding tpe_obj_obj_add
  add_adopt-Adopted obj o c = elim (Bool-cases (c == minus_one)) [
    | inl t ↦ rw t tt
    | inr t ↦ rw t (
        added-Adopted obj o (empty_object c)
          (record (empty_object c) { updated = 1; isnew = true; parent = o.oid; server = true }) c
          refl)
  ]

  adopt-Adopted :
      (obj : Objects H) (o : Object) (c : ℕ) → Returns (Adopted obj o c) (adopt hash obj o c)
  unfolding adopt
  adopt-Adopted obj o c = elim (Option-cases (tpe_obj_obj_get_by_id hash obj c)) [
    | inl e ↦ rw (e, adopt) (add_adopt-Adopted obj o c)
    | inr (child, e) ↦ elim (Bool-cases (child.parent == o.oid)) [
      | inl t ↦ rw (e, adopt, t) (rw (get_by_id_find obj c child e) t, λ d h. h)
      | inr t ↦
          rw (e, adopt, t)
            (stored-Adopted obj o (record child { parent = o.oid; updated = 1 }) c refl)
    ]
  ]

  abbrev AllAdopted : Objects H → Object → List ℕ → Objects H → Type 0
  AllAdopted obj o cs out =
      All (λ c. IsChild o c out) cs × ((d : ℕ) → IsChild o d obj → IsChild o d out)

  adopt_all-AllAdopted :
      (obj : Objects H) (o : Object) (cs : List ℕ)
      → Returns (AllAdopted obj o cs) (adopt_all hash obj o cs)
  unfolding adopt_all
  adopt_all-AllAdopted obj o [] = (tt, λ d h. h)
  adopt_all-AllAdopted obj o (c ∷ cs) =
      >>=-Returns (AllAdopted obj o (c ∷ cs)) (adopt hash obj o c) _ (λ obj' e.
        let first = Returns-ok (Adopted obj o c) _ (adopt-Adopted obj o c) e in
        Returns-map (AllAdopted obj' o cs) (AllAdopted obj o (c ∷ cs)) (adopt_all hash obj' o cs)
          (adopt_all-AllAdopted obj' o cs)
          (λ out h. ((h.1 c first.0, h.0), λ d g. h.1 d (first.1 d g))))

  -- When the handler of an object's children comes to its end, each of the object's children is
  -- known, and its parent is the object, whatever children it had before.
  pub update_children-IsChild :
      (obj : Objects H) (o : Object) (oldchildren : List ℕ) (out : Objects H)
      → tpe_obj_update_children hash obj o oldchildren ≡ ok out
      → All (λ c. is_child_of o.oid (hash.find out.objhash c) ≡ true) o.children
  unfolding tpe_obj_update_children
  update_children-IsChild obj o oldchildren out h =
      let (obj', e, e') = >>=-eq-ok {b = out} (lose_old hash obj o oldchildren oldchildren) _ h in
      (Returns-ok (AllAdopted obj' o o.children) _ (adopt_all-AllAdopted obj' o o.children) e').0
