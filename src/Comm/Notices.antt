-- ===== src/Comm/Notices.antt =====
-- tpe_comm.c: the messages that no callback waits for, on features, failures and the time; and the
-- answer about the player.
use Prim.Native.String.{String}
use text.Mathlib.Text.{◌==◌ as str_eq}
use galaxie.Prelude.{
  ℕ, zero, suc, ◌+◌, ◌*◌, ◌%◌, ◌^◌, ◌<◌, ◌≡◌, ◌≢◌, refl, arith, Bool, true, false, ◌&&◌, List, [],
  ◌∷◌, ◌++◌, All, length, leb, ◌==◌, if◌then◌else◌, Bool-cases, inl, inr,
}
use galaxie.Run.{Run, ok, undefined, ◌>>=◌}
use galaxie.Wire.{IsU32, be32, word}
use galaxie.Parse.{at, read_int}
use galaxie.Parse.Fields.{Value, int, str, field, int_case}
use galaxie.Parse.Packet.{parse_from, tpe_util_parse_packet}
use galaxie.Parse.RoundTrip.Strings.{read_int-be32, extract-str_chunk}
use galaxie.Server.{Msg}
use galaxie.Server.Format.{str_chunk}
use galaxie.Comm.{Connect, tpe_comm_msg_player_id}

-- `struct features`, less its handler, which has no effect.
pub record Feature : Type 0 where
  pub id : ℕ
  pub desc : String

abbrev feature : ℕ → String → Feature
feature id desc = record { id = id; desc = desc }

unfoldable features : List Feature
features =
    feature 1 "SSL connection on this port"
    ∷ feature 2 "SSL connection on another port"
    ∷ feature 3 "http connect on this port"
    ∷ feature 4 "http connect on another port"
    ∷ feature 5 "keep alive"
    ∷ feature 6 "Serverside properties"
    ∷ feature 0x3e8 "Account Creation Allowed"
    ∷ feature 0x1000 "SSL filer can enbabled"
    ∷ feature 0x1D00 "Padding may be enabled"
    ∷ feature 0x10000 "Object ID in descending modified time"
    ∷ feature 0x10001 "Order ID in descending modified time"
    ∷ feature 0x10002 "Board ID in descending modified time"
    ∷ feature 0x10003 "Resource ID in descending modified time"
    ∷ feature 0x10004 "Category ID in descending modified time"
    ∷ feature 0x10005 "Design ID in descending modified time"
    ∷ feature 0x10006 "Component ID in descending modified time"
    ∷ feature 0x10007 "Property ID in descending modified time"
    ∷ feature 1000 "Account registration"
    ∷ []

-- The inner loop: the descriptions that are printed for one number.
unfoldable pub described : ℕ → List Feature → List String
described id [] = []
described id (f ∷ fs) = let rest = described id fs in if f.id == id then f.desc ∷ rest else rest

-- The outer loop, from item `i` on; a word outside the message is undefined.
unfoldable feature_rounds : List ℕ → ℕ → ℕ → Run (List String)
unfolding described features
feature_rounds body i zero = ok []
feature_rounds body i (suc n) =
    let rest = feature_rounds body (suc i) n in
    if leb (4 * (i + 2)) (length body)
    then (rest >>= λ printed. ok (described (word body (i + 1)) features ++ printed))
    else undefined

-- The features that are printed.
unfoldable tpe_comm_available_features_msg : List ℕ → Run (List String)
unfolding feature_rounds
tpe_comm_available_features_msg body =
    if leb 4 (length body) then feature_rounds body 0 (word body 0) else undefined

-- What the format "is" stores, which is printed.
unfoldable tpe_comm_msg_fail : List ℕ → Run (List Value)
unfolding tpe_util_parse_packet
tpe_comm_msg_fail body =
    tpe_util_parse_packet body (b'i' ∷ b's' ∷ []) >>= λ parsed. ok parsed.values

-- What the format "iis" stores.
unfoldable time_values : List Value → Run (ℕ × ℕ)
time_values (int remain ∷ int turn ∷ str turnname ∷ []) = ok (remain, turn)
time_values _ = undefined

-- The turn of `struct tpe`, before and after, and whether "NewTurn" is sent. The parse has stored all
-- three values when it returns, so that `rv` is 3.
unfoldable tpe_comm_time_remaining : ℕ → ℕ → List ℕ → Run (ℕ × Bool)
unfolding tpe_util_parse_packet time_values
tpe_comm_time_remaining turn seq body =
    tpe_util_parse_packet body (b'i' ∷ b'i' ∷ b's' ∷ []) >>= λ parsed.
    time_values parsed.values >>= λ t.
    let ticked = if turn == t.1 then turn else t.1 in
    ok (if seq == 0 && t.0 == 0 then ((ticked + 1) % 2 ^ 32, true) else (ticked, false))

-- A message about the time, of two numbers and the turn's padded name, which has neither NUL nor
-- more than 1996 bytes: the turn becomes the message's, and the one after it if the message is no
-- answer and no time remains; then, and only then, a new turn is announced.
time_remaining_lem :
    (turn seq remain new_turn : ℕ) (name more : List ℕ)
    → IsU32 remain
    → IsU32 new_turn
    → All (λ b. b ≢ 0) name
    → length name < 1997
    → tpe_comm_time_remaining turn seq
        (be32 remain ++ (be32 new_turn ++ ((str_chunk name []).bytes ++ more)))
      ≡ ok (if seq == 0 && remain == 0 then ((new_turn + 1) % 2 ^ 32, true) else (new_turn, false))
unfolding tpe_comm_time_remaining tpe_util_parse_packet parse_from field
time_remaining_lem turn seq remain new_turn name more hr ht hn l =
    rw
      (
        read_int-be32 remain (be32 new_turn ++ ((str_chunk name []).bytes ++ more)) hr,
        read_int-be32 new_turn ((str_chunk name []).bytes ++ more) ht,
        extract-str_chunk name more hn l,
      )
      (ground arith)

no_int : (body : List ℕ) → length body < 4 → read_int (at body) ≡ undefined
unfolding read_int
no_int [] h = refl
no_int (a ∷ []) h = refl
no_int (a ∷ b ∷ []) h = refl
no_int (a ∷ b ∷ c ∷ []) h = refl
no_int (a ∷ b ∷ c ∷ d ∷ bs) h = absurd (omega arith)

no_player :
    (body : List ℕ)
    → length body < 4
    → tpe_util_parse_packet body (b'i' ∷ b's' ∷ b's' ∷ b'l' ∷ []) ≡ undefined
unfolding tpe_util_parse_packet parse_from field int_case
no_player body h = rw (no_int body h) refl

-- An answer about the player that is handled to its end, and whose body is as long as it says, has
-- not changed the player or the player's names.
msg_player_id_unset :
    (c c' : Connect) (m : Msg) → length m.body ≡ m.len → tpe_comm_msg_player_id c m ≡ ok c' → c' ≡ c
unfolding tpe_comm_msg_player_id
msg_player_id_unset c c' m l h = elim (Bool-cases (str_eq m.type "MsgFail")) [
  | inl t ↦ absurd (ground (arith, t, h))
  | inr t ↦ elim (Bool-cases (str_eq m.type "MsgSEQUENCE")) [
    | inl u ↦ ground (arith, t, u, h)
    | inr u ↦ elim (Bool-cases (leb 4 m.len)) [
      | inl v ↦ absurd (ground (arith, t, u, v, h))
      | inr v ↦
          let none_read = no_player m.body (ground (arith, v, l)) in
          absurd (ground (arith, t, u, v, none_read, h))
    ]
  ]
]
