-- ===== src/Orders/Fragments.antt =====
-- `tpe_orders_object_update` of tpe_orders.c: the orders of an object are asked for, a hundred in
-- one request.
use mathlib.Core.List.{append-nil}
use galaxie.Prelude.{
  ℕ, zero, suc, ◌+◌, ◌*◌, ◌-◌, ◌/◌, ◌%◌, ◌^◌, ◌<◌, ◌≤◌, ◌≡◌, refl, sym, ◌∙◌, ap, arith, none, false,
  leb, length, map, All, List, [], ◌∷◌, ◌++◌, ◌==◌, if◌then◌else◌, upto, length-upto,
}
use galaxie.Run.{Run, ok, undefined, ◌>>=◌, >>=_cong}
use galaxie.Wire.{be32, is_negative}
use galaxie.Server.{Server}
use galaxie.Server.Send.{Request, server_send}
use galaxie.Server.Send.Batch.{send_all}

unfoldable fragments : ℕ → ℕ
fragments norders = (norders + 99) / 100

unfoldable pub items : ℕ → ℕ → ℕ
unfolding fragments
items norders frag = if frag + 1 == fragments norders then norders % 100 else 100

-- The slots that one fragment asks for.
unfoldable fragment_slots : ℕ → ℕ → List ℕ
unfolding items
fragment_slots norders frag = upto (frag * 100) (items norders frag)

unfoldable pub words_of : List ℕ → List ℕ
words_of [] = []
words_of (n ∷ ns) = be32 n ++ words_of ns

unfoldable fragment_body : ℕ → ℕ → ℕ → List ℕ
unfolding items fragment_slots words_of
fragment_body oid norders frag =
    be32 oid ++ (be32 (items norders frag) ++ words_of (fragment_slots norders frag))

module _ {C : Type 0} where
  -- The loop from fragment `frag` on, over the `k` that are left.
  unfoldable send_fragments : Server C → ℕ → ℕ → ℕ → ℕ → Run (Server C)
  unfolding fragment_body server_send
  send_fragments server oid norders frag zero = ok server
  send_fragments server oid norders frag (suc k) =
      server_send server
        (record { type = "MsgGetOrder"; cb = none; body = fragment_body oid norders frag })
      >>= λ out. send_fragments out.0 oid norders (suc frag) k

  -- `norders` is an int: the sum overflows for the largest ones, and a negative one has no fragment.
  unfoldable pub tpe_orders_object_update : Server C → ℕ → ℕ → Run (Server C)
  unfolding send_fragments fragments
  tpe_orders_object_update server oid norders =
      if norders == 0
      then ok server
      else if is_negative norders
      then ok server
      else if leb (2 ^ 31) (norders + 99)
      then undefined
      else send_fragments server oid norders 0 (fragments norders)

-- The requests, each by the slots that it asks for, and the list of those of the sender.
abbrev pub request : {C : Type 0} → ℕ → List ℕ → Request C
request oid slots = record {
  type = "MsgGetOrder";
  cb = none;
  body = be32 oid ++ (be32 (length slots) ++ words_of slots);
}

abbrev slots_from : ℕ → ℕ → ℕ → List (List ℕ)
slots_from norders frag zero = []
slots_from norders frag (suc k) = fragment_slots norders frag ∷ slots_from norders (suc frag) k

abbrev pub joined : List (List ℕ) → List ℕ
joined [] = []
joined (xs ∷ xss) = xs ++ joined xss

send_fragments_lem :
    {C : Type 0} (server : Server C) (oid norders frag k : ℕ)
    → send_fragments server oid norders frag k
      ≡ send_all server (map (request oid) (slots_from norders frag k))
unfolding send_fragments fragment_body fragment_slots
send_fragments_lem server oid norders frag zero = refl
send_fragments_lem {C} server oid norders frag (suc k) =
    let same : fragment_body oid norders frag
        ≡ (request {C = C} oid (fragment_slots norders frag)).body =
      ap (λ n. be32 oid ++ (be32 n ++ words_of (fragment_slots norders frag)))
        (sym (length-upto (frag * 100) (items norders frag))) in
    ap
      (λ body.
        server_send server (record { type = "MsgGetOrder"; cb = none; body = body }) >>= λ out.
        send_fragments out.0 oid norders (suc frag) k)
      same
    ∙ >>=_cong (server_send server (request oid (fragment_slots norders frag)))
        (λ out e. send_fragments_lem out.0 oid norders (suc frag) k)

abbrev pub AtMost : ℕ → List ℕ → Type 0
AtMost n xs = length xs ≤ n

slots_from-AtMost : (norders frag k : ℕ) → All (AtMost 100) (slots_from norders frag k)
unfolding fragment_slots items
slots_from-AtMost norders frag zero = tt
slots_from-AtMost norders frag (suc k) = (
  ground (arith, length-upto (frag * 100) (items norders frag)),
  slots_from-AtMost norders (suc frag) k,
)

upto_join : (i m j n t : ℕ) → j ≡ i + m → t ≡ m + n → upto i m ++ upto j n ≡ upto i t
upto_join i zero j n t hj ht =
    ap (λ k. upto k n) {x = j} {y = i} (omega (arith, hj))
    ∙ ap (upto i) {x = n} {y = t} (omega (arith, ht))
upto_join i (suc m) j n zero hj ht = absurd (omega (arith, ht))
upto_join i (suc m) j n (suc t) hj ht =
    ap (λ r. i ∷ r) (upto_join (suc i) m j n t (omega (arith, hj)) (omega (arith, ht)))

items_last : (norders frag : ℕ) → frag + 1 ≡ fragments norders → items norders frag ≡ norders % 100
unfolding items
items_last norders frag h = ground (arith, h)

items_full : (norders frag : ℕ) → frag + 1 < fragments norders → items norders frag ≡ 100
unfolding items
items_full norders frag h = ground (arith, h)

joined_slots_lem :
    (norders frag k t : ℕ)
    → frag + suc k ≡ fragments norders
    → t ≡ k * 100 + norders % 100
    → joined (slots_from norders frag (suc k)) ≡ upto (frag * 100) t
unfolding fragment_slots
joined_slots_lem norders frag zero t h ht =
    append-nil (upto (frag * 100) (items norders frag))
    ∙ ap (upto (frag * 100)) {x = items norders frag} {y = t}
        (omega (arith, items_last norders frag h, ht))
joined_slots_lem norders frag (suc k) t h ht =
    let full = items_full norders frag (omega (arith, h)) in
    let u = k * 100 + norders % 100 in
    ap (λ r. upto (frag * 100) (items norders frag) ++ r)
      (joined_slots_lem norders (suc frag) k u (omega (arith, h)) refl)
    ∙ upto_join (frag * 100) (items norders frag) (suc frag * 100) u t (omega (arith, full))
        (omega (arith, full, ht))

-- For an object with orders, whose number and 99 more is an int: what `tpe_orders_object_update` sends
-- is requests of at most a hundred slots each, which together ask for every slot of the object's
-- orders, in order and once, if the number of orders is not a multiple of 100, and else for all but
-- the last hundred of them.
pub object_update-slots :
    {C : Type 0} (server : Server C) (oid norders : ℕ)
    → 0 < norders
    → norders + 99 < 2 ^ 31
    → (slots : List (List ℕ)) × (tpe_orders_object_update server oid norders
        ≡ send_all server (map (request oid) slots))
      × All (AtMost 100) slots
      × (joined slots ≡ upto 0 (if norders % 100 == 0 then norders - 100 else norders))
unfolding tpe_orders_object_update fragments
object_update-slots server oid norders h small =
    let k = (norders - 1) / 100 in
    let count : fragments norders ≡ suc k = omega arith in
    let some_orders : (norders == 0) ≡ false = ground arith in
    let positive : is_negative norders ≡ false = ground arith in
    let fits : leb (2 ^ 31) (norders + 99) ≡ false = ground arith in
    (
      slots_from norders 0 (fragments norders),
      rw (some_orders, positive, fits)
          (send_fragments_lem server oid norders 0 (fragments norders)),
      slots_from-AtMost norders 0 (fragments norders),
      ap (λ n. joined (slots_from norders 0 n)) count
          ∙ joined_slots_lem norders 0 k (if norders % 100 == 0 then norders - 100 else norders)
              (omega (arith, count)) (ground arith),
    )
