-- ===== src/Sequence/Register.antt =====
-- tpe_sequence.c: the sequences are registered, each with the event of its list of ids.
-- `F` and `E` are the free functions and the data of events. `append` is `eina_list_append`.
pub mod Hooks
use Prim.Native.String.{String}
use text.Mathlib.Text.{◌==◌ as str_eq}
use galaxie.Prelude.{
  ℕ, ◌+◌, ◌≡◌, ◌≢◌, refl, sym, ◌∙◌, ap, arith, Bool, true, false, Option, none, some, List, [], ◌∷◌,
  ◌++◌, length, map, Option-cases, inl, inr, if◌then◌else◌,
}
use galaxie.Event.{EventInfo, Events, find_event, tpe_event_handler_add}
use galaxie.Event.Registry.{find_event-handler_add, HandlerAdded, bumped}
use galaxie.Sequence.{Sequence}

-- The handlers of the file. That of a list of ids has its sequence as its data: here, the place of
-- the sequence in the list.
pub data Handler : Type 0 where
  new_turn connect : Handler
  handle_oids : ℕ → Handler

-- `tpe->sequence`, which is NULL before the first registration, and the events.
pub record Registered (E F : Type 0) : Type 0 where
  pub seqs : Option (List Sequence)
  pub events : Events Handler E F

abbrev list_of : Option (List Sequence) → List Sequence
list_of none = []
list_of (some seqs) = seqs

-- The arguments of `tpe_sequence_register` but `tpe` and `lastupdatefn`.
pub record Registration : Type 0 where
  pub updatemsg : String
  pub oidlist : String
  pub getmsg : String
  pub list_begin : Bool
  pub list_end : Bool

abbrev pub new_sequence : Registration → Sequence
new_sequence r = record {
  updatemsg = r.updatemsg;
  getmsg = r.getmsg;
  list_begin = r.list_begin;
  list_end = r.list_end;
  position = 0;
  delete = false;
}

module _ {E F : Type 0} where
  unfoldable pub tpe_sequence_init : Events Handler E F → Events Handler E F
  unfolding tpe_event_handler_add
  tpe_sequence_init events =
      (tpe_event_handler_add (tpe_event_handler_add events "NewTurn" new_turn).0 "Connected"
        connect).0

  unfoldable pub started : Registered E F → Registered E F
  unfolding tpe_sequence_init
  started s = elim s.seqs [
    | some seqs ↦ s
    | none ↦ record { seqs = some []; events = tpe_sequence_init s.events }
  ]

  unfoldable pub registered :
      (List Sequence → Sequence → List Sequence) → Registered E F → Registration → Registered E F
  unfolding tpe_event_handler_add
  registered append s r = record {
    seqs = some (append (list_of s.seqs) (new_sequence r));
    events = (tpe_event_handler_add s.events r.oidlist (handle_oids (length (list_of s.seqs)))).0;
  }

  unfoldable pub tpe_sequence_register :
      (List Sequence → Sequence → List Sequence) → Registered E F → Registration → Registered E F
  unfolding started registered
  tpe_sequence_register append s r = registered append (started s) r
