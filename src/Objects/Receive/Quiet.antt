-- ===== src/Objects/Receive/Quiet.antt =====
-- objects.c: the events that `tpe_obj_data_receive` sends.
use galaxie.Prelude.{
  ℕ, ◌≡◌, refl, ◌⊎◌, arith, Bool, true, false, Option, none, some, List, [], ◌∷◌, ◌++◌, ◌==◌, All,
  Bool-cases, Option-cases, inl, inr,
}
use galaxie.Run.{Run, ok, undefined, Returns, >>=-Returns, Returns-ok}
use galaxie.Wire.{minus_one}
use galaxie.Parse.Packet.{tpe_util_parse_packet}
use galaxie.Server.{Msg}
use galaxie.Board.{first_int}
use galaxie.Objects.{
  EinaHash, Object, Objects, null, array, freed, empty_object, stored, tpe_obj_obj_get_by_id,
  tpe_obj_obj_add,
}
use galaxie.Objects.Receive.{
  Notice, described, object_format, object_values, free_orders, new_orders, no_orders, news,
  object_for, finish, tpe_obj_data_receive, receive_all,
}

-- An object, if there is one, has no types of orders.
abbrev pub idle : Option Object → Bool
idle none = true
idle (some o) = o.nordertypes == 0

abbrev pub IsNews : Notice → Type 0
IsNews n = (n.event ≡ "ObjectNew") ⊎ (n.event ≡ "ObjectChanged")

news-IsNews : (isnew : Bool) (o : Object) → IsNews (news isnew o)
news-IsNews true o = inl refl
news-IsNews false o = inr refl

no_orders_idle : (o : Object) → o.nordertypes ≡ 0 → no_orders o ≡ []
unfolding no_orders
no_orders_idle o h = ground (arith, h)

append-All {ℓ κ} :
    {A : Type ℓ} (P : A → Type κ) (xs ys : List A) → All P xs → All P ys → All P (xs ++ ys)
append-All P [] ys h g = g
append-All P (x ∷ xs) ys h g = (h.0, append-All P xs ys h.1 g)

module _ {H : Type 0} (hash : EinaHash H Object) where
  abbrev IsIdle : Objects H → Type 0
  IsIdle obj = (k : ℕ) → idle (hash.find obj.objhash k) ≡ true

  abbrev IsQuiet : Objects H × List Notice → Type 0
  IsQuiet out = IsIdle out.0 × All IsNews out.1

  stored-IsIdle :
      (obj : Objects H) (id : ℕ) (o : Object)
      → IsIdle obj
      → o.nordertypes ≡ 0
      → IsIdle (stored hash obj id o)
  stored-IsIdle obj id o h e k =
      rw (hash.find-set obj.objhash id o k)
        (elim (Bool-cases (k == id)) [ inl t ↦ rw t (ground (arith, e)) | inr t ↦ rw t (h k) ])

  abbrev IsFound : Objects H × Object × Bool → Type 0
  IsFound found = IsIdle found.0 × ((found.1).nordertypes ≡ 0)

  abbrev IsAdded : Objects H × Object → Type 0
  IsAdded added = IsIdle added.0 × ((added.1).nordertypes ≡ 0)

  obj_add-IsAdded :
      (obj : Objects H) (id : ℕ) → IsIdle obj → Returns IsAdded (tpe_obj_obj_add hash obj id)
  unfolding tpe_obj_obj_add
  obj_add-IsAdded obj id h = elim (Bool-cases (id == minus_one)) [
    | inl t ↦ rw t tt
    | inr t ↦ rw t (stored-IsIdle obj id (empty_object id) h refl, refl)
  ]

  get_by_id_idle :
      (obj : Objects H) (id : ℕ) → IsIdle obj → idle (tpe_obj_obj_get_by_id hash obj id) ≡ true
  unfolding tpe_obj_obj_get_by_id
  get_by_id_idle obj id h = elim (Bool-cases (id == minus_one)) [
    | inl t ↦ rw t refl
    | inr t ↦ rw t (h id)
  ]

  object_for-IsFound :
      (obj : Objects H) (id : ℕ) → IsIdle obj → Returns IsFound (object_for hash obj id)
  unfolding object_for
  object_for-IsFound obj id h = elim (Option-cases (tpe_obj_obj_get_by_id hash obj id)) [
    | inl e ↦
        rw (e, object_for)
          (>>=-Returns IsFound (tpe_obj_obj_add hash obj id) _
            (λ added e'. Returns-ok IsAdded _ (obj_add-IsAdded obj id h) e'))
    | inr (o, e) ↦ rw (e, object_for) (h, ground (arith, e, get_by_id_idle obj id h))
  ]

  free_orders_idle :
      (o : Object) → o.nordertypes ≡ 0 → Returns (λ o'. o'.nordertypes ≡ 0) (free_orders o)
  unfolding free_orders
  free_orders_idle o h =
      elim o.orders
        as (λ s.
          Returns (λ o'. o'.nordertypes ≡ 0)
            (elim s as (λ s. Run Object) [
              | null ↦ ok o
              | array os ↦ ok (record o { orders = freed })
              | freed ↦ undefined
            ])) [ null ↦ h | array os ↦ h | freed ↦ tt ]

  -- The end of the handler.
  whole-IsQuiet :
      (obj : Objects H) (id : ℕ) (isnew : Bool) (o : Object) (msg : Msg)
      → IsIdle obj
      → o.nordertypes ≡ 0
      → Returns IsQuiet (finish hash obj id isnew o msg)
  unfolding finish
  whole-IsQuiet obj id isnew o msg h e = elim (Bool-cases (msg.protocol == 4)) [
    | inl t ↦
        rw (t, finish)
          (>>=-Returns IsQuiet (tpe_util_parse_packet msg.body object_format) _ (λ parsed e₁.
            >>=-Returns IsQuiet (object_values parsed.values) _ (λ d e₂.
              let whole = record (described o d) { orders = new_orders o.norders } in
              (
                stored-IsIdle obj id whole h e,
                (news-IsNews isnew whole, rw (no_orders_idle whole e) tt),
              ))))
    | inr t ↦ rw (t, finish) (stored-IsIdle obj id o h e, tt)
  ]

  data_receive-IsQuiet :
      (obj : Objects H) (msg : Msg)
      → IsIdle obj
      → Returns IsQuiet (tpe_obj_data_receive hash obj msg)
  unfolding tpe_obj_data_receive
  data_receive-IsQuiet obj msg h =
      >>=-Returns IsQuiet (tpe_util_parse_packet msg.body (b'i' ∷ [])) _ (λ first e₁.
        >>=-Returns IsQuiet (first_int first.values) _ (λ id e₂.
          >>=-Returns IsQuiet (object_for hash obj id) _ (λ found e₃.
            let ok_found = Returns-ok IsFound _ (object_for-IsFound obj id h) e₃ in
            >>=-Returns IsQuiet (free_orders (record found.1 { name = none })) _ (λ o e₄.
              let no_types =
                Returns-ok (λ o'. o'.nordertypes ≡ 0) _
                  (free_orders_idle (record found.1 { name = none }) ok_found.1) e₄ in
              whole-IsQuiet found.0 id found.2 o msg ok_found.0 no_types))))

  receive_all-IsQuiet :
      (obj : Objects H) (msgs : List Msg) → IsIdle obj → Returns IsQuiet (receive_all hash obj msgs)
  unfolding receive_all
  receive_all-IsQuiet obj [] h = (h, tt)
  receive_all-IsQuiet obj (msg ∷ msgs) h =
      >>=-Returns IsQuiet (tpe_obj_data_receive hash obj msg) _ (λ out e.
        let q = Returns-ok IsQuiet _ (data_receive-IsQuiet obj msg h) e in
        >>=-Returns IsQuiet (receive_all hash out.0 msgs) _ (λ rest e'.
          let r = Returns-ok IsQuiet _ (receive_all-IsQuiet out.0 msgs q.0) e' in
          (r.0, append-All IsNews out.1 rest.1 q.1 r.1)))

  -- From objects of which none has types of orders, such as none at all, messages about objects that
  -- are all handled to their end send no other event than that an object is new or has changed: never
  -- that a planet or a fleet has no orders.
  pub receive_all-IsNews :
      (obj : Objects H) (msgs : List Msg) (out : Objects H × List Notice)
      → ((k : ℕ) → idle (hash.find obj.objhash k) ≡ true)
      → receive_all hash obj msgs ≡ ok out
      → All IsNews out.1
  receive_all-IsNews obj msgs out h e =
      (Returns-ok IsQuiet (receive_all hash obj msgs) (receive_all-IsQuiet obj msgs h) e).1
