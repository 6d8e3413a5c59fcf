-- ===== src/Event/Tests.antt =====
-- The theorems on the list of events at a list of two.
use galaxie.Prelude.{ℕ, ◌≡◌, refl, some, [], ◌∷◌}
use galaxie.Run.{ok}
use galaxie.Event.{EventInfo, Events, done, find_event, tpe_event_handler_add, tpe_event_send}
use galaxie.Event.Registry.{find_event-handler_add, HandlerAdded, event_send-handler_add}

abbrev turn : EventInfo
turn = record { name = "NewTurn"; ecore_event = 100; handlers = 1 }

abbrev idle : EventInfo
idle = record { name = "MsgOK"; ecore_event = 101; handlers = 0 }

abbrev events : Events ℕ ℕ ℕ
events = record { hash = turn ∷ idle ∷ []; types = 2; hooked = []; added = []; freed = [] }

find_event-handler_add_example :
    (find_event (tpe_event_handler_add events "MsgOK" 5).0.hash "MsgOK"
      ≡ some (record { name = "MsgOK"; ecore_event = 101; handlers = 1 }))
    × HandlerAdded events 5 (tpe_event_handler_add events "MsgOK" 5) (some idle)
unfolding find_event
find_event-handler_add_example = find_event-handler_add events "MsgOK" "MsgOK" 5

event_send-handler_add_example :
    let added = (tpe_event_handler_add events "MsgOK" 5).0 in
    (added.hooked ≡ (101, 5) ∷ [])
    × (tpe_event_send added "MsgOK" (some 7) (some 8)
        ≡ ok (record added { added = (101, some 7) ∷ [] }, done))
unfolding find_event
event_send-handler_add_example = event_send-handler_add events "MsgOK" 5 idle (some 7) 8 refl
