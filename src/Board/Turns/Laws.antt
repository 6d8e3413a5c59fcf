-- ===== src/Board/Turns/Laws.antt =====
-- What the searches through a board find.
use galaxie.Prelude.{
  ℕ, zero, suc, ◌+◌, ◌-◌, ◌%◌, ◌^◌, ◌<◌, ◌≤◌, ◌≡◌, ◌≢◌, refl, sym, ◌∙◌, ap, arith, Option, none,
  some, List, [], ◌∷◌, length, ◌==◌, All, Bool-cases, inl, inr, take, ◌⊎◌,
}
use galaxie.Run.{Run, ok}
use galaxie.Board.{Message, Board, tpe_board_board_get_by_id}
use galaxie.Board.Slots.{slot_at}
use galaxie.Board.Slots.Laws.{WellFormed, InPlace, count_unread, get_by_id-All}
use galaxie.Board.Turns.{
  int_lt, first_unread, latest, latest_of, with_board, tpe_board_board_message_unread_get,
  tpe_board_board_message_turn_get, tpe_board_board_message_next, tpe_board_board_message_prev,
}

-- The number that orders turns: an int, moved up by 2 ^ 31.
abbrev order : Message → ℕ
order m = (m.turn + 2 ^ 31) % 2 ^ 32

abbrev NotLater : Message → Option Message → Type 0
NotLater m none = Unit
NotLater m (some x) = (x.turn + 2 ^ 31) % 2 ^ 32 ≤ (m.turn + 2 ^ 31) % 2 ^ 32

not_later :
    (m x : Message) (ms : List (Option Message))
    → order x ≤ order m
    → All (NotLater x) ms
    → All (NotLater m) ms
not_later m x [] h a = tt
not_later m x (none ∷ ms) h a = (tt, not_later m x ms h a.1)
not_later m x (some y ∷ ms) h a = (omega (arith, h, a.0), not_later m x ms h a.1)

latest-NotLater :
    (m r : Message) (ms : List (Option Message))
    → latest m ms ≡ r
    → (order m ≤ order r) × All (NotLater r) ms
unfolding latest
latest-NotLater m r [] e = (ground (arith, e), tt)
latest-NotLater m r (none ∷ ms) e = let h = latest-NotLater m r ms e in (h.0, (tt, h.1))
latest-NotLater m r (some x ∷ ms) e = elim (Bool-cases (int_lt m.turn x.turn)) [
  | inl t ↦
      let h = latest-NotLater x r ms (rw (t, latest) at e) in (ground (arith, t, h.0), (h.0, h.1))
  | inr t ↦
      let h = latest-NotLater m r ms (rw (t, latest) at e) in (h.0, (ground (arith, t, h.0), h.1))
]

-- One more slot behind the first.
slot_behind :
    (m x : Option Message) (ms : List (Option Message)) (i : ℕ) {r : Run (Option Message)}
    → slot_at (m ∷ ms) i ≡ r
    → (j : ℕ) × (slot_at (m ∷ x ∷ ms) j ≡ r)
unfolding slot_at
slot_behind m x ms zero h = (0, h)
slot_behind m x ms (suc i) h = (suc (suc i), h)

-- The choice is the first message or one of the others.
latest-slot_at :
    (m : Message) (ms : List (Option Message))
    → (i : ℕ) × (slot_at (some m ∷ ms) i ≡ ok (some (latest m ms)))
unfolding latest slot_at
latest-slot_at m [] = (0, refl)
latest-slot_at m (none ∷ ms) = let (i, e) = latest-slot_at m ms in slot_behind (some m) none ms i e
latest-slot_at m (some x ∷ ms) = elim (Bool-cases (int_lt m.turn x.turn)) [
  | inl t ↦ rw (t, latest) (let (i, e) = latest-slot_at x ms in (suc i, e))
  | inr t ↦
      rw (t, latest) (let (i, e) = latest-slot_at m ms in slot_behind (some m) (some x) ms i e)
]

-- The first slots of an array that has so many.
take_whole : (n : ℕ) (ms : List (Option Message)) → length ms ≡ n → take n ms ≡ ms
take_whole n [] h = ground (arith, h)
take_whole zero (m ∷ ms) h = absurd (omega (arith, h))
take_whole (suc n) (m ∷ ms) h = ap (λ r. m ∷ r) (take_whole n ms (omega (arith, h)))

-- A message that stands in a slot of a board, and is not later than any message of it; or none, if
-- there are no slots or nothing stands in the first one.
abbrev pub IsLatest : Board → Option Message → Type 0
IsLatest b none = (b.nmessages ≡ 0) ⊎ (slot_at b.messages 0 ≡ ok none)
IsLatest b (some m) = ((i : ℕ) × (slot_at b.messages i ≡ ok (some m))) × All (NotLater m) b.messages

latest_of-IsLatest :
    (b : Board) (ms : List (Option Message))
    → b.messages ≡ ms
    → length b.messages ≡ b.nmessages
    → IsLatest b (latest_of ms)
unfolding latest_of slot_at
latest_of-IsLatest b [] e l = inl (sym l ∙ ap length e)
latest_of-IsLatest b (none ∷ ms) e l = inr (ap (λ ms. slot_at ms 0) e)
latest_of-IsLatest b (some m ∷ ms) e l =
    let h = latest-NotLater m (latest m ms) ms refl in rw e (latest-slot_at m ms, (h.0, h.1))

-- On a well formed board `tpe_board_board_message_turn_get` finds a message of the board of which no
-- message has a later turn, or nothing; it finds nothing only if the board has no slots or if the
-- message of its first slot has not come.
pub turn_get-IsLatest :
    (bs : List Board) (id : ℕ) (b : Board)
    → All WellFormed bs
    → tpe_board_board_get_by_id bs id ≡ some b
    → IsLatest b (tpe_board_board_message_turn_get bs id)
unfolding tpe_board_board_message_turn_get
turn_get-IsLatest bs id b w e =
    let wb : WellFormed b = (get_by_id-All WellFormed bs id w e).0 in
    rw (e, tpe_board_board_message_turn_get, take_whole b.nmessages b.messages wb.sized.0)
      (latest_of-IsLatest b b.messages refl wb.sized.0)

-- What a search for an unread message says of the board's count.
abbrev pub FirstUnread : Board → Option Message → Type 0
FirstUnread b none = b.unread ≡ 0
FirstUnread b (some m) = (0 < b.unread) × (m.unread ≢ 0) × (slot_at b.messages m.slot ≡ ok (some m))

abbrev InSlot : ℕ → List (Option Message) → Option Message → Type 0
InSlot k ms none = count_unread ms ≡ 0
InSlot k ms (some m) =
    (0 < count_unread ms)
    × (m.unread ≢ 0)
    × ((i : ℕ) × (m.slot ≡ k + i) × (slot_at ms i ≡ ok (some m)))

InSlot-suc :
    (k : ℕ) (x : Option Message) (ms : List (Option Message)) (r : Option Message)
    → count_unread (x ∷ ms) ≡ count_unread ms
    → InSlot (k + 1) ms r
    → InSlot k (x ∷ ms) r
unfolding slot_at
InSlot-suc k x ms none e h = e ∙ h
InSlot-suc k x ms (some m) e (c, u, (i, s, h)) =
    (omega (arith, e, c), u, (suc i, omega (arith, s), h))

first_unread-InSlot :
    (oid k : ℕ) (ms : List (Option Message)) → InPlace oid k ms → InSlot k ms (first_unread ms)
unfolding first_unread slot_at
first_unread-InSlot oid k [] h = refl
first_unread-InSlot oid k (none ∷ ms) h =
    InSlot-suc k none ms (first_unread ms) refl (first_unread-InSlot oid (k + 1) ms h)
first_unread-InSlot oid k (some m ∷ ms) (p, q, h) = elim (Bool-cases (m.unread == 0)) [
  | inl t ↦ rw t (
      InSlot-suc k (some m) ms (first_unread ms) (ground (arith, t))
        (first_unread-InSlot oid (k + 1) ms h))
  | inr t ↦ rw t (ground (arith, t), ground (arith, t), (0, omega (arith, q), refl))
]

-- On a well formed board `tpe_board_board_message_unread_get` finds nothing where the count of
-- unread messages is 0, and else an unread message of the board.
pub unread_get-FirstUnread :
    (bs : List Board) (id : ℕ) (b : Board)
    → All WellFormed bs
    → tpe_board_board_get_by_id bs id ≡ some b
    → FirstUnread b (tpe_board_board_message_unread_get bs id)
unfolding tpe_board_board_message_unread_get
unread_get-FirstUnread bs id b w e =
    let wb : WellFormed b = (get_by_id-All WellFormed bs id w e).0 in
    rw (e, tpe_board_board_message_unread_get, take_whole b.nmessages b.messages wb.sized.0)
      (go (first_unread b.messages) wb (first_unread-InSlot b.oid 0 b.messages wb.in_place))
  where
    go : (r : Option Message) → WellFormed b → InSlot 0 b.messages r → FirstUnread b r
    go none wb h = wb.counted.0 ∙ h
    go (some m) wb (c, u, (i, s, h)) =
        let p : m.slot ≡ i = omega (arith, s) in
        (omega (arith, wb.counted.0, c), u, ap (λ i. slot_at b.messages i) p ∙ h)

pub slot_of_message :
    (oid k : ℕ) (ms : List (Option Message)) (i : ℕ) (m : Message)
    → InPlace oid k ms
    → slot_at ms i ≡ ok (some m)
    → (m.board ≡ oid) × (m.slot ≡ k + i) × (i < length ms)
unfolding slot_at
slot_of_message oid k [] i m h e = cc
slot_of_message oid k (none ∷ ms) zero m h e = cc
slot_of_message oid k (some x ∷ ms) zero m (p, q, h) e =
    let s : x ≡ m = cc in (ap (λ y. y.board) (sym s) ∙ p, ground (arith, s, q), omega arith)
slot_of_message oid k (none ∷ ms) (suc i) m h e =
    let (p, q, l) = slot_of_message oid (k + 1) ms i m h e in
    (p, omega (arith, q), omega (arith, l))
slot_of_message oid k (some x ∷ ms) (suc i) m (a, b, h) e =
    let (p, q, l) = slot_of_message oid (k + 1) ms i m h e in
    (p, omega (arith, q), omega (arith, l))

-- On a well formed board of fewer than 2 ^ 31 messages, `tpe_board_board_message_prev` undoes
-- `tpe_board_board_message_next` where that one has gone from a message to another.
pub prev-next :
    (bs : List Board) (b : Board) (m n : Message)
    → All WellFormed bs
    → tpe_board_board_get_by_id bs m.board ≡ some b
    → slot_at b.messages m.slot ≡ ok (some m)
    → m.slot + 1 < b.nmessages
    → b.nmessages < 2 ^ 31
    → tpe_board_board_message_next bs m ≡ ok (some n)
    → tpe_board_board_message_prev bs n ≡ ok (some m)
unfolding tpe_board_board_message_next tpe_board_board_message_prev with_board
prev-next bs b m n w e h lt small next =
    let wb : WellFormed b = (get_by_id-All WellFormed bs m.board w e).0 in
    let k : (m.slot + 1) % 2 ^ 32 ≡ m.slot + 1 = omega arith in
    let g : slot_at b.messages (m.slot + 1) ≡ ok (some n) =
      ap (λ i. slot_at b.messages i) (sym k) ∙ ground (arith, e, next) in
    let at_n = slot_of_message b.oid 0 b.messages (m.slot + 1) n wb.in_place g in
    let at_m = slot_of_message b.oid 0 b.messages m.slot m wb.in_place h in
    let same : tpe_board_board_get_by_id bs n.board ≡ some b =
      ap (λ i. tpe_board_board_get_by_id bs i) (at_n.0 ∙ sym at_m.0) ∙ e in
    let back : n.slot - 1 ≡ m.slot = omega (arith, at_n.1) in
    rw (same, tpe_board_board_message_prev, with_board)
      (ground (arith, at_n.1, ap (λ i. slot_at b.messages i) back, h))
