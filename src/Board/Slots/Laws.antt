-- ===== src/Board/Slots/Laws.antt =====
-- What a board counts is what stands in its slots.
use galaxie.Prelude.{
  ℕ, zero, suc, ◌+◌, ◌^◌, ◌<◌, ◌≡◌, ◌≢◌, refl, sym, ◌∙◌, ap, arith, Option, none, some, List, [],
  ◌∷◌, length, ◌==◌, if◌then◌else◌, All, Bool-cases, Option-cases, inl, inr,
}
use mathlib.Core.Path.{subst}
use galaxie.Run.{ok, >>=-eq-ok}
use galaxie.Board.{Message, Board, BoardUpdate, tpe_board_board_get_by_id, stored}
use galaxie.Board.Slots.{
  slot_at, set_slot, as_unread, received, put_message, receive_message, marked,
  tpe_board_board_message_read,
}

abbrev one_unread : Message → ℕ
one_unread m = if m.unread == 0 then 0 else 1

abbrev pub count_unread : List (Option Message) → ℕ
count_unread [] = 0
count_unread (none ∷ ms) = count_unread ms
count_unread (some m ∷ ms) = one_unread m + count_unread ms

abbrev pub count_messages : List (Option Message) → ℕ
count_messages [] = 0
count_messages (none ∷ ms) = count_messages ms
count_messages (some m ∷ ms) = 1 + count_messages ms

-- Every message stands in the slot that it names, on the board that it names.
abbrev pub InPlace : ℕ → ℕ → List (Option Message) → Type 0
InPlace oid i [] = Unit
InPlace oid i (none ∷ ms) = InPlace oid (i + 1) ms
InPlace oid i (some m ∷ ms) = (m.board ≡ oid) × (m.slot ≡ i) × InPlace oid (i + 1) ms

pub record WellFormed (b : Board) : Type 0 where
  pub sized : (length b.messages ≡ b.nmessages) × (b.nalloced ≡ b.nmessages)
  pub in_place : InPlace b.oid 0 b.messages
  pub counted : (b.unread ≡ count_unread b.messages) × (b.received ≡ count_messages b.messages)

length-set_slot :
    (ms : List (Option Message)) (i : ℕ) (m : Message) → length (set_slot ms i m) ≡ length ms
unfolding set_slot
length-set_slot [] i m = refl
length-set_slot (x ∷ ms) zero m = refl
length-set_slot (x ∷ ms) (suc i) m = ap (λ n. suc n) (length-set_slot ms i m)

set_slot-InPlace :
    (oid k : ℕ) (ms : List (Option Message)) (i : ℕ) (m : Message)
    → InPlace oid k ms
    → m.board ≡ oid
    → m.slot ≡ k + i
    → InPlace oid k (set_slot ms i m)
unfolding set_slot
set_slot-InPlace oid k [] i m h hb hs = tt
set_slot-InPlace oid k (none ∷ ms) zero m h hb hs = (hb, omega (arith, hs), h)
set_slot-InPlace oid k (some x ∷ ms) zero m (p, q, h) hb hs = (hb, omega (arith, hs), h)
set_slot-InPlace oid k (none ∷ ms) (suc i) m h hb hs =
    set_slot-InPlace oid (k + 1) ms i m h hb (omega (arith, hs))
set_slot-InPlace oid k (some x ∷ ms) (suc i) m (p, q, h) hb hs =
    (p, q, set_slot-InPlace oid (k + 1) ms i m h hb (omega (arith, hs)))

-- A message goes into an empty slot.
set_slot_empty :
    (ms : List (Option Message)) (i : ℕ) (m : Message)
    → slot_at ms i ≡ ok none
    → (count_unread (set_slot ms i m) ≡ one_unread m + count_unread ms)
      × (count_messages (set_slot ms i m) ≡ 1 + count_messages ms)
unfolding set_slot slot_at
set_slot_empty [] i m h = cc
set_slot_empty (none ∷ ms) zero m h = (refl, refl)
set_slot_empty (some x ∷ ms) zero m h = cc
set_slot_empty (none ∷ ms) (suc i) m h = set_slot_empty ms i m h
set_slot_empty (some x ∷ ms) (suc i) m h =
    (omega (arith, (set_slot_empty ms i m h).0), omega (arith, (set_slot_empty ms i m h).1))

-- A message takes the place of another.
set_slot_full :
    (ms : List (Option Message)) (i : ℕ) (m x : Message)
    → slot_at ms i ≡ ok (some x)
    → (one_unread x + count_unread (set_slot ms i m) ≡ one_unread m + count_unread ms)
      × (count_messages (set_slot ms i m) ≡ count_messages ms)
unfolding set_slot slot_at
set_slot_full [] i m x h = cc
set_slot_full (none ∷ ms) zero m x h = cc
set_slot_full (some y ∷ ms) zero m x h =
    let e : y ≡ x = cc in (omega (arith, ap one_unread e), refl)
set_slot_full (none ∷ ms) (suc i) m x h = set_slot_full ms i m x h
set_slot_full (some y ∷ ms) (suc i) m x h =
    (omega (arith, (set_slot_full ms i m x h).0), omega (arith, (set_slot_full ms i m x h).1))

pub get_by_id-All :
    (P : Board → Type 0) (bs : List Board) (oid : ℕ) {b : Board}
    → All P bs
    → tpe_board_board_get_by_id bs oid ≡ some b
    → P b × (b.oid ≡ oid)
unfolding tpe_board_board_get_by_id
get_by_id-All P [] oid h e = cc
get_by_id-All P (c ∷ bs) oid {b} h e = elim (Bool-cases (c.oid == oid)) [
  | inl t ↦ let p : c ≡ b = ground (arith, e) in (subst P p h.0, ground (arith, p))
  | inr t ↦ get_by_id-All P bs oid h.1 (ground (arith, e))
]

pub stored-All :
    (P : Board → Type 0) (bs : List Board) (b : Board) → All P bs → P b → All P (stored bs b)
unfolding stored
stored-All P [] b h p = tt
stored-All P (c ∷ bs) b h p = elim (Bool-cases (c.oid == b.oid)) [
  | inl t ↦ rw t (p, h.1)
  | inr t ↦ rw t (h.0, stored-All P bs b h.1 p)
]

received-WellFormed :
    (b : Board) (m : Message)
    → WellFormed b
    → b.oid ≡ m.board
    → slot_at b.messages m.slot ≡ ok none
    → WellFormed (received b (as_unread m))
unfolding received
received-WellFormed b m w e h =
    let f = set_slot_empty b.messages m.slot (as_unread m) h in
    record {
      sized = (length-set_slot b.messages m.slot (as_unread m) ∙ w.sized.0, w.sized.1);
      in_place =
          set_slot-InPlace b.oid 0 b.messages m.slot (as_unread m) w.in_place (sym e) (omega arith);
      counted = (omega (arith, f.0, w.counted.0), omega (arith, f.1, w.counted.1));
    }

put_message-WellFormed :
    (bs : List Board) (b : Board) (m : Message) (there : Option Message)
    → All WellFormed bs
    → WellFormed b
    → b.oid ≡ m.board
    → slot_at b.messages m.slot ≡ ok there
    → All WellFormed (put_message bs b (as_unread m) there).0
unfolding put_message
put_message-WellFormed bs b m (some x) w wb e h = w
put_message-WellFormed bs b m none w wb e h =
    stored-All WellFormed bs _ w (received-WellFormed b m wb e h)

-- A message that arrives leaves boards that are well formed so: its array has as many slots as it says,
-- each message stands in the slot that it names, and the board's counts are the numbers of its
-- messages and of the unread ones.
pub receive_message-WellFormed :
    (bs : List Board) (m : Message) (out : List Board × Option BoardUpdate)
    → All WellFormed bs
    → receive_message bs m ≡ ok out
    → All WellFormed out.0
unfolding receive_message put_message
receive_message-WellFormed bs m out w h =
    elim (Option-cases (tpe_board_board_get_by_id bs m.board)) [
      | inl e ↦ let p : bs ≡ out.0 = ground (arith, e) in subst (All WellFormed) p w
      | inr (b, e) ↦
          let (there, g, r) =
            >>=-eq-ok {b = out} (slot_at b.messages m.slot)
              (λ there. ok (put_message bs b (as_unread m) there)) (rw (e, receive_message) at h) in
          let (wb, i) = get_by_id-All WellFormed bs m.board w e in
          let p : (put_message bs b (as_unread m) there).0 ≡ out.0 = cc in
          subst (All WellFormed) p (put_message-WellFormed bs b m there w wb i g)
    ]

pub marked-WellFormed :
    (b : Board) (m : Message)
    → WellFormed b
    → b.oid ≡ m.board
    → m.unread ≢ 0
    → b.unread < 2 ^ 32
    → slot_at b.messages m.slot ≡ ok (some m)
    → WellFormed (marked b m)
unfolding marked
marked-WellFormed b m w e u l h =
    let read : Message = record m { unread = 0 } in
    let f = set_slot_full b.messages m.slot read m h in
    let one : one_unread m ≡ 1 = ground arith in
    record {
      sized = (length-set_slot b.messages m.slot read ∙ w.sized.0, w.sized.1);
      in_place = set_slot-InPlace b.oid 0 b.messages m.slot read w.in_place (sym e) (omega arith);
      counted = (omega (arith, f.0, one, w.counted.0), omega (arith, f.1, w.counted.1));
    }

-- Marking a message that stands in its slot as read leaves boards that are well formed so, the count
-- of the unread ones included. The board's count fits an int.
message_read-WellFormed :
    (bs : List Board) (m : Message) (b : Board) (out : List Board × Option BoardUpdate)
    → All WellFormed bs
    → tpe_board_board_get_by_id bs m.board ≡ some b
    → slot_at b.messages m.slot ≡ ok (some m)
    → b.unread < 2 ^ 32
    → tpe_board_board_message_read bs m ≡ ok out
    → All WellFormed out.0
unfolding tpe_board_board_message_read
message_read-WellFormed bs m b out w e g l h = elim (Bool-cases (m.unread == 0)) [
  | inl t ↦ let p : bs ≡ out.0 = ground (arith, t) in subst (All WellFormed) p w
  | inr t ↦
      let (wb, i) = get_by_id-All WellFormed bs m.board w e in
      let p : stored bs (marked b m) ≡ out.0 = ground (arith, t, e) in
      subst (All WellFormed) p
        (stored-All WellFormed bs (marked b m) w (marked-WellFormed b m wb i (ground arith) l g))
]
