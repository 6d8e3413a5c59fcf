-- ===== src/Event.antt =====
-- tpe_event.c: events by name, on top of the numbered events of Ecore.
-- `eina_list_append` and `ecore_event_type_new` are parameters: the first by what it returns, the
-- second by the number that its n-th call returns.
pub mod Registry
mod Tests
use Prim.Native.String.{String}
use text.Mathlib.Text.{◌==◌ as str_eq}
use galaxie.Prelude.{ℕ, ◌+◌, ltb, Option, none, some, List, [], ◌∷◌, ◌++◌, if◌then◌else◌}
use galaxie.Run.{Run, ok, aborted}

-- `struct event_info`
pub record EventInfo : Type 0 where
  pub name : String
  pub ecore_event : ℕ
  pub handlers : ℕ

-- The list `hash` of the file and what was asked of Ecore: the number of types made, the handlers
-- added and the events added, each with its type, and the event data that a free function got, with
-- that function (none is `free`). `H`, `E` and `F` are the handlers, event data and free functions.
pub record Events (H E F : Type 0) : Type 0 where
  pub hash : List EventInfo
  pub types : ℕ
  pub hooked : List (ℕ × H)
  pub added : List (ℕ × Option E)
  pub freed : List (Option F × Option E)

-- The values 0 and -1 that the functions return.
pub data Status : Type 0 where
  done failed : Status

-- The search through `hash`, which leaves NULL where no entry has the name.
unfoldable pub find_event : List EventInfo → String → Option EventInfo
find_event [] event = none
find_event (e ∷ es) event = if str_eq e.name event then some e else find_event es event

-- `einfo->handlers ++` for the entry that the search finds.
unfoldable pub count_handler : List EventInfo → String → List EventInfo
count_handler [] event = []
count_handler (e ∷ es) event =
    if str_eq e.name event
    then record e { handlers = e.handlers + 1 } ∷ es
    else e ∷ count_handler es event

module _ {H E F : Type 0} where
  unfoldable tpe_event_init : Events H E F → Events H E F
  tpe_event_init s = record s { hash = [] }

  unfoldable pub tpe_event_type_add :
      (List EventInfo → EventInfo → List EventInfo) → (ℕ → ℕ) → Events H E F → String → Events H E F
  tpe_event_type_add eina_list_append ecore_event_type_new s name = record s {
    hash =
        eina_list_append s.hash
          (record { name = name; ecore_event = ecore_event_type_new s.types; handlers = 0 });
    types = s.types + 1;
  }

  unfoldable pub tpe_event_handler_add : Events H E F → String → H → Events H E F × Status
  unfolding find_event count_handler
  tpe_event_handler_add s event handler = elim (find_event s.hash event) [
    | none ↦ (s, failed)
    | some e ↦ (
      record s {
        hash = count_handler s.hash event;
        hooked = s.hooked ++ ((e.ecore_event, handler) ∷ []);
      },
      done,
    )
  ]

  -- The event has handlers: Ecore gets it. It has none: it is freed at once.
  unfoldable pub deliver : Events H E F → EventInfo → Option E → Option F → Events H E F
  deliver s e edata freefn =
      if ltb 0 e.handlers
      then record s { added = s.added ++ ((e.ecore_event, edata) ∷ []) }
      else record s { freed = s.freed ++ ((freefn, edata) ∷ []) }

  -- `assert(freefn && edata)`, made where there are data and no free function.
  unfoldable pub checked_deliver :
      Events H E F → EventInfo → Option E → Option F → Run (Events H E F × Status)
  unfolding deliver
  checked_deliver s e (some d) none = aborted
  checked_deliver s e edata freefn = ok (deliver s e edata freefn, done)

  unfoldable pub tpe_event_send :
      Events H E F → String → Option E → Option F → Run (Events H E F × Status)
  unfolding find_event checked_deliver
  tpe_event_send s event edata freefn = elim (find_event s.hash event) [
    | none ↦ ok (s, failed)
    | some e ↦ checked_deliver s e edata freefn
  ]
