-- ===== src/Objects/Family.antt =====
-- objects.c: the siblings, the first child and the parent of an object.
use galaxie.Prelude.{
  ℕ, suc, ◌+◌, ◌-◌, ◌≡◌, ◌≢◌, refl, ap, ◌∙◌, arith, Bool, true, false, Option, none, some, List, [],
  ◌∷◌, ◌++◌, ◌==◌, if◌then◌else◌, length, length-append, get_elem?, All,
}
use galaxie.Wire.{minus_one}
use galaxie.Objects.{EinaHash, Object, Objects, tpe_obj_obj_get_by_id}

-- The loop of `tpe_obj_obj_sibling_get`: the place of the first child of that number, or the number
-- of children.
unfoldable child_index : List ℕ → ℕ → ℕ
child_index [] oid = 0
child_index (c ∷ cs) oid = let rest = child_index cs oid in if c == oid then 0 else suc rest

module _ {H : Type 0} (hash : EinaHash H Object) where
  -- `nchildren` is the length of the array. A place outside the array is not read.
  abbrev child_at : Objects H → List ℕ → ℕ → Option Object
  child_at obj cs i = elim (get_elem? cs i) [
    | none ↦ none
    | some c ↦ tpe_obj_obj_get_by_id hash obj c
  ]

  -- The sibling at a place of the parent's children.
  unfoldable sibling_of : Objects H → List ℕ → ℕ → Bool → Option Object
  unfolding tpe_obj_obj_get_by_id
  sibling_of obj cs i true =
      if i == length cs then none else if i + 1 == length cs then none else child_at obj cs (i + 1)
  sibling_of obj cs i false =
      if i == 0 then none else if i == length cs then none else child_at obj cs (i - 1)

  unfoldable pub tpe_obj_obj_sibling_get : Objects H → Object → Bool → Option Object
  unfolding tpe_obj_obj_get_by_id child_index sibling_of
  tpe_obj_obj_sibling_get obj o next =
      if o.parent == minus_one then none else elim (tpe_obj_obj_get_by_id hash obj o.parent) [
        | none ↦ none
        | some parent ↦ sibling_of obj parent.children (child_index parent.children o.oid) next
      ]

  unfoldable tpe_obj_obj_child_get : Objects H → Object → Option Object
  unfolding tpe_obj_obj_get_by_id
  tpe_obj_obj_child_get obj o = elim o.children [
    | [] ↦ none
    | c ∷ _ ↦ tpe_obj_obj_get_by_id hash obj c
  ]

  unfoldable tpe_obj_obj_parent_get : Objects H → Object → Option Object
  unfolding tpe_obj_obj_get_by_id
  tpe_obj_obj_parent_get obj o =
      if o.parent == minus_one then none else tpe_obj_obj_get_by_id hash obj o.parent

child_index_lem :
    (front : List ℕ) (c : ℕ) (back : List ℕ)
    → All (λ d. d ≢ c) front
    → child_index (front ++ (c ∷ back)) c ≡ length front
unfolding child_index
child_index_lem [] c back h = ground arith
child_index_lem (d ∷ front) c back h = ground (arith, h.0, child_index_lem front c back h.1)

get_elem?_front :
    (front back : List ℕ) (i : ℕ) → get_elem? (front ++ back) (length front + i) ≡ get_elem? back i
get_elem?_front [] back i = ap (get_elem? back) {x = 0 + i} {y = i} (omega arith)
get_elem?_front (d ∷ front) back i =
    ap (get_elem? (d ∷ (front ++ back))) {x = suc (length front) + i} {y = suc (length front + i)}
      (omega arith)
    ∙ get_elem?_front front back i

abbrev first_of : List ℕ → Option ℕ
first_of [] = none
first_of (c ∷ cs) = some c

abbrev last_of : List ℕ → Option ℕ
last_of [] = none
last_of (c ∷ []) = some c
last_of (c ∷ d ∷ cs) = last_of (d ∷ cs)

get_elem?_last :
    (c : ℕ) (front back : List ℕ)
    → get_elem? ((c ∷ front) ++ back) (length front) ≡ last_of (c ∷ front)
get_elem?_last c [] back = refl
get_elem?_last c (d ∷ front) back = get_elem?_last d front back

module _ {H : Type 0} (hash : EinaHash H Object) where
  sibling_of-next :
      (obj : Objects H) (front : List ℕ) (c : ℕ) (back : List ℕ)
      → sibling_of hash obj (front ++ (c ∷ back)) (length front) true
        ≡ elim (first_of back) [ none ↦ none | some d ↦ tpe_obj_obj_get_by_id hash obj d ]
  unfolding sibling_of
  sibling_of-next obj front c [] = ground (arith, length-append front (c ∷ []))
  sibling_of-next obj front c (d ∷ back) =
      let l = length-append front (c ∷ d ∷ back) in
      let at_back = get_elem?_front front (c ∷ d ∷ back) 1 in
      let not_end : (length front == length (front ++ (c ∷ d ∷ back))) ≡ false =
        ground (arith, l) in
      let not_last : (length front + 1 == length (front ++ (c ∷ d ∷ back))) ≡ false =
        ground (arith, l) in
      rw (not_end, not_last, at_back, child_at) refl

  sibling_of-prev :
      (obj : Objects H) (front : List ℕ) (c : ℕ) (back : List ℕ)
      → sibling_of hash obj (front ++ (c ∷ back)) (length front) false
        ≡ elim (last_of front) [ none ↦ none | some d ↦ tpe_obj_obj_get_by_id hash obj d ]
  unfolding sibling_of
  sibling_of-prev obj [] c back = refl
  sibling_of-prev obj (d ∷ front) c back =
      let l = length-append (d ∷ front) (c ∷ back) in
      let at_front : get_elem? ((d ∷ front) ++ (c ∷ back)) (suc (length front) - 1)
          ≡ last_of (d ∷ front) =
        ap (get_elem? ((d ∷ front) ++ (c ∷ back))) {x = suc (length front) - 1} {y = length front}
          (omega arith)
        ∙ get_elem?_last d front (c ∷ back) in
      let not_end : (suc (length front) == length ((d ∷ front) ++ (c ∷ back))) ≡ false =
        ground (arith, l) in
      let not_start : (suc (length front) == 0) ≡ false = ground arith in
      rw (not_start, not_end, at_front, child_at) refl

  -- An object whose parent is known and has it among its children, first at a certain place: its next
  -- sibling is the object of the number behind that place and its previous one the object of the
  -- number in front of it, and there is none at either end.
  pub sibling_get_lem :
      (obj : Objects H) (o parent : Object) (front back : List ℕ)
      → o.parent ≢ minus_one
      → hash.find obj.objhash o.parent ≡ some parent
      → parent.children ≡ front ++ (o.oid ∷ back)
      → All (λ c. c ≢ o.oid) front
      → (tpe_obj_obj_sibling_get hash obj o true
          ≡ elim (first_of back) [ none ↦ none | some c ↦ tpe_obj_obj_get_by_id hash obj c ])
        × (tpe_obj_obj_sibling_get hash obj o false
            ≡ elim (last_of front) [ none ↦ none | some c ↦ tpe_obj_obj_get_by_id hash obj c ])
  unfolding tpe_obj_obj_sibling_get tpe_obj_obj_get_by_id
  sibling_get_lem obj o parent front back n e f h =
      let known : (o.parent == minus_one) ≡ false = ground (arith, n) in
      let i = child_index_lem front o.oid back h in
      (
        rw (known, e, f, i) (sibling_of-next obj front o.oid back),
        rw (known, e, f, i) (sibling_of-prev obj front o.oid back),
      )
