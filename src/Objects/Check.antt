-- ===== src/Objects/Check.antt =====
-- objects.c: the mark of a round of updates, which `tpe_obj_list_begin` draws and
-- `tpe_obj_object_updated` leaves on an object.
use galaxie.Prelude.{
  ℕ, zero, suc, ◌+◌, ◌<◌, ◌≡◌, ◌≢◌, refl, ap, ◌∙◌, arith, false, some, ◌==◌, Bool-cases, inl, inr,
}
use galaxie.Run.{ok}
use galaxie.Objects.{
  EinaHash, Object, Objects, stored, tpe_obj_obj_get_by_id, tpe_obj_object_updated,
  tpe_obj_list_begin,
}

draws :
    {H : Type 0} (rand : ℕ → ℕ) (fuel k n : ℕ) (obj : Objects H)
    → n < fuel
    → rand (k + n) ≢ 0
    → (check : ℕ) × (check ≢ 0)
      × (tpe_obj_list_begin rand fuel k obj ≡ ok (record obj { check = check }))
unfolding tpe_obj_list_begin
draws rand zero k n obj l h = absurd (omega (arith, l))
draws rand (suc fuel) k zero obj l h =
    let drawn : rand k ≢ 0 = (λ e. h (ap rand {x = k + 0} {y = k} (omega arith) ∙ e)) in
    (rand k, drawn, ground (arith, drawn))
draws rand (suc fuel) k (suc n) obj l h = elim (Bool-cases (rand k == 0)) [
  | inl t ↦
      let later : rand (suc k + n) ≢ 0 =
        (λ e. h (ap rand {x = k + suc n} {y = suc k + n} (omega arith) ∙ e)) in
      let (check, p, e) = draws rand fuel (suc k) n obj (omega (arith, l)) later in
      (check, p, rw (t, tpe_obj_list_begin) e)
  | inr t ↦ (rand k, (λ e. ground (arith, t, e)), rw (t, tpe_obj_list_begin) refl)
]

marks :
    {H : Type 0} (hash : EinaHash H Object) (obj : Objects H) (oid : ℕ) (o : Object)
    → obj.check ≢ 0
    → tpe_obj_obj_get_by_id hash obj oid ≡ some o
    → tpe_obj_object_updated hash obj oid
      ≡ (stored hash obj oid (record o { ref = obj.check }), o.updated)
unfolding tpe_obj_object_updated
marks hash obj oid o p e =
    let marked : (obj.check == 0) ≡ false = ground (arith, p) in
    rw (e, tpe_obj_object_updated, marked) refl

-- If call number n of `rand`, counted from 0, returns a number that is not 0, the loop of
-- `tpe_obj_list_begin` ends with fuel above n and leaves a mark that is not 0. Asking for the time of
-- an object that is known then marks the object, and returns the object's time.
pub list_begin-marks :
    {H : Type 0} (hash : EinaHash H Object) (rand : ℕ → ℕ) (fuel n : ℕ) (obj : Objects H) (oid : ℕ)
    (o : Object)
    → n < fuel
    → rand n ≢ 0
    → tpe_obj_obj_get_by_id hash obj oid ≡ some o
    → (out : Objects H) × (tpe_obj_list_begin rand fuel 0 obj ≡ ok out)
      × (out.check ≢ 0)
      × (tpe_obj_object_updated hash out oid
          ≡ (stored hash out oid (record o { ref = out.check }), o.updated))
unfolding tpe_obj_obj_get_by_id
list_begin-marks hash rand fuel n obj oid o l h e =
    let (check, p, b) =
      draws rand fuel 0 n obj l (λ z. h (ap rand {x = n} {y = 0 + n} (omega arith) ∙ z)) in
    (record obj { check = check }, b, p, marks hash (record obj { check = check }) oid o p e)
