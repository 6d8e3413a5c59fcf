-- ===== src/Event/Registry.antt =====
-- The list of events as a map from names: what each function does to a search by name.
use Prim.Native.String.{String}
use text.Mathlib.Text.{◌==◌ as str_eq}
use text.Mathlib.TextEquality.{eq_iff}
use galaxie.Prelude.{
  ℕ, ◌+◌, ◌≡◌, sym, true, refl, inl, inr, Option, none, some, List, [], ◌∷◌, ◌++◌, arith,
  if◌then◌else◌, ltb, Option-cases,
}
use mathlib.Core.Path.{subst}
use galaxie.Run.{ok}
use galaxie.Event.{
  EventInfo, Events, Status, checked_deliver, deliver, done, failed, find_event, count_handler,
  tpe_event_type_add, tpe_event_handler_add, tpe_event_send,
}

find_event-append :
    (es : List EventInfo) (e : EventInfo) (event : String)
    → find_event (es ++ (e ∷ [])) event ≡ elim (find_event es event) [
      | some x ↦ some x
      | none ↦ if str_eq e.name event then some e else none
    ]
unfolding find_event
find_event-append [] e event = ground arith
find_event-append (x ∷ es) e event = ground (arith, find_event-append es e event)

abbrev pub bumped : Option EventInfo → Option EventInfo
bumped none = none
bumped (some e) = some (record e { handlers = e.handlers + 1 })

find_event-count_handler :
    (es : List EventInfo) (name event : String)
    → find_event (count_handler es name) event
      ≡ (if str_eq name event then bumped (find_event es event) else find_event es event)
unfolding find_event count_handler
find_event-count_handler [] name event = ground arith
find_event-count_handler (e ∷ es) name event = ground (
  arith,
  eq_iff name event,
  eq_iff e.name event,
  eq_iff e.name name,
  find_event-count_handler es name event,
)

module _ {H E F : Type 0} where
  -- Where `eina_list_append` puts its element at the end of the list, a type that is added is found
  -- under its name unless the name was there before, with the next number of Ecore and no handlers;
  -- every other name is found as before.
  find_event-type_add :
      (append : List EventInfo → EventInfo → List EventInfo) (type_new : ℕ → ℕ)
      → ((es : List EventInfo) (e : EventInfo) → append es e ≡ es ++ (e ∷ []))
      → (s : Events H E F) (name event : String)
      → find_event (tpe_event_type_add append type_new s name).hash event
        ≡ elim (find_event s.hash event) [
          | some x ↦ some x
          | none ↦
              if str_eq name event
              then some (record { name = name; ecore_event = type_new s.types; handlers = 0 })
              else none
        ]
  unfolding tpe_event_type_add
  find_event-type_add append type_new append_lem s name event =
      rw (append_lem s.hash (record { name = name; ecore_event = type_new s.types; handlers = 0 }))
        (find_event-append s.hash _ event)

  -- What adding a handler does, by what the search for its name finds.
  abbrev pub HandlerAdded : Events H E F → H → Events H E F × Status → Option EventInfo → Type 0
  HandlerAdded s h out none = out ≡ (s, failed)
  HandlerAdded s h out (some e) =
      (out.0.hooked ≡ s.hooked ++ ((e.ecore_event, h) ∷ [])) × (out.1 ≡ done)

  handler_add_none :
      (s : Events H E F) (name : String) (h : H)
      → find_event s.hash name ≡ none
      → tpe_event_handler_add s name h ≡ (s, failed)
  unfolding tpe_event_handler_add
  handler_add_none s name h n = rw (n, tpe_event_handler_add)

  handler_add_some :
      (s : Events H E F) (name : String) (h : H) (e : EventInfo)
      → find_event s.hash name ≡ some e
      → tpe_event_handler_add s name h ≡ (
        record s {
          hash = count_handler s.hash name;
          hooked = s.hooked ++ ((e.ecore_event, h) ∷ []);
        },
        done,
      )
  unfolding tpe_event_handler_add
  handler_add_some s name h e n = rw (n, tpe_event_handler_add)

  -- Adding a handler to a name that is there counts it at that name and at no other, and hands it to
  -- Ecore under the name's number; adding one to a name that is not there changes nothing and
  -- returns -1.
  pub find_event-handler_add :
      (s : Events H E F) (name event : String) (h : H)
      → (find_event (tpe_event_handler_add s name h).0.hash event ≡ (
          if str_eq name event then bumped (find_event s.hash event) else find_event s.hash event))
        × HandlerAdded s h (tpe_event_handler_add s name h) (find_event s.hash name)
  find_event-handler_add s name event h = elim (Option-cases (find_event s.hash name)) [
    | inl n ↦ rw (handler_add_none s name h n, n) (ground (arith, n, eq_iff name event), refl)
    | inr (e, n) ↦
        rw (handler_add_some s name h e n, n)
          (find_event-count_handler s.hash name event, (refl, refl))
  ]

  event_send_lem :
      (s : Events H E F) (name : String) (e : EventInfo) (edata : Option E) (freefn : F)
      → find_event s.hash name ≡ some e
      → ltb 0 e.handlers ≡ true
      → tpe_event_send s name edata (some freefn)
        ≡ ok (record s { added = s.added ++ ((e.ecore_event, edata) ∷ []) }, done)
  unfolding tpe_event_send checked_deliver deliver
  event_send_lem s name e none freefn n p = rw (tpe_event_send, n, p) refl
  event_send_lem s name e (some d) freefn n p = rw (tpe_event_send, n, p) refl

  -- A handler that is added to a name that is there, and then an event that is sent under this name
  -- with a free function: the handler is hooked to the number under which the data are handed to
  -- Ecore, once, behind what was handed on before, and nothing is freed.
  pub event_send-handler_add :
      (s : Events H E F) (name : String) (h : H) (e : EventInfo) (edata : Option E) (freefn : F)
      → find_event s.hash name ≡ some e
      → let added = (tpe_event_handler_add s name h).0 in
        (added.hooked ≡ s.hooked ++ ((e.ecore_event, h) ∷ []))
        × (tpe_event_send added name edata (some freefn)
            ≡ ok (record added { added = s.added ++ ((e.ecore_event, edata) ∷ []) }, done))
  event_send-handler_add s name h e edata freefn n =
      let same : str_eq name name ≡ true = ground (arith, eq_iff name name) in
      let bump : find_event (count_handler s.hash name) name
          ≡ some (record e { handlers = e.handlers + 1 }) =
        rw (find_event-count_handler s.hash name name, same, n) refl in
      subst
        (λ out.
          (out.0.hooked ≡ s.hooked ++ ((e.ecore_event, h) ∷ []))
          × (tpe_event_send out.0 name edata (some freefn)
              ≡ ok (record out.0 { added = s.added ++ ((e.ecore_event, edata) ∷ []) }, done)))
        (sym (handler_add_some s name h e n))
        (
          refl,
          event_send_lem
              (record s {
                hash = count_handler s.hash name;
                hooked = s.hooked ++ ((e.ecore_event, h) ∷ []);
              })
              name (record e { handlers = e.handlers + 1 }) edata freefn bump (ground arith),
        )
