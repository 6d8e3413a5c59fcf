-- ===== src/Sequence/Register/Hooks.antt =====
-- The handlers that a list of registrations gives to Ecore.
use Prim.Native.String.{String}
use text.Mathlib.Text.{◌==◌ as str_eq}
use mathlib.Core.List.{append_assoc, append-nil}
use galaxie.Prelude.{
  ℕ, ◌+◌, ◌≡◌, refl, sym, ◌∙◌, ap, Option, none, some, List, [], ◌∷◌, ◌++◌, length, length-append,
  map, Bool-cases, inl, inr, All,
}
use galaxie.Event.{EventInfo, Events, find_event, tpe_event_handler_add}
use galaxie.Event.Registry.{find_event-handler_add, HandlerAdded, bumped}
use galaxie.Sequence.{Sequence}
use galaxie.Sequence.Register.{
  Handler, new_turn, connect, handle_oids, Registered, Registration, new_sequence,
  tpe_sequence_init, started, registered, tpe_sequence_register,
}

-- The number of an event in Ecore, if the event has been added.
abbrev number_of : Option EventInfo → Option ℕ
number_of none = none
number_of (some e) = some e.ecore_event

number_of-bumped : (o : Option EventInfo) → number_of (bumped o) ≡ number_of o
number_of-bumped none = refl
number_of-bumped (some e) = refl

module _ {E F : Type 0} where
  abbrev pub number : Events Handler E F → String → Option ℕ
  number events name = number_of (find_event events.hash name)

  number-handler_add :
      (events : Events Handler E F) (name event : String) (h : Handler)
      → number (tpe_event_handler_add events name h).0 event ≡ number events event
  number-handler_add events name event h =
      ap number_of (find_event-handler_add events name event h).0
      ∙ elim (Bool-cases (str_eq name event)) [
        | inl t ↦ rw t (number_of-bumped (find_event events.hash event))
        | inr t ↦ rw t refl
      ]

  hooked-handler_add :
      (events : Events Handler E F) (name : String) (h : Handler) (k : ℕ)
      → number events name ≡ some k
      → (tpe_event_handler_add events name h).0.hooked ≡ events.hooked ++ ((k, h) ∷ [])
  hooked-handler_add events name h k e =
      go (find_event events.hash name) e (find_event-handler_add events name name h).1
    where
      go :
          (o : Option EventInfo)
          → number_of o ≡ some k
          → HandlerAdded events h (tpe_event_handler_add events name h) o
          → (tpe_event_handler_add events name h).0.hooked ≡ events.hooked ++ ((k, h) ∷ [])
      go none e a = cc
      go (some i) e a = let p : i.ecore_event ≡ k = cc in rw (sym p) a.0

  abbrev register_all : Registered E F → List Registration → Registered E F
  register_all s [] = s
  register_all s (r ∷ rs) =
      register_all (tpe_sequence_register (λ seqs seq. seqs ++ (seq ∷ [])) s r) rs

-- The handlers of lists of ids, of which the first one has sequence `i`.
abbrev hooks : (String → ℕ) → ℕ → List Registration → List (ℕ × Handler)
hooks num i [] = []
hooks num i (r ∷ rs) = (num r.oidlist, handle_oids i) ∷ hooks num (i + 1) rs

module _ {E F : Type 0} (num : String → ℕ) where
  abbrev Known : Events Handler E F → List Registration → Type 0
  Known events = All (λ r. number events r.oidlist ≡ some (num r.oidlist))

  Known-handler_add :
      (events : Events Handler E F) (name : String) (h : Handler) (rs : List Registration)
      → Known events rs
      → Known (tpe_event_handler_add events name h).0 rs
  Known-handler_add events name h [] k = tt
  Known-handler_add events name h (r ∷ rs) k =
      (number-handler_add events name r.oidlist h ∙ k.0, Known-handler_add events name h rs k.1)

  -- Once the file has started, each registration adds one handler and one sequence.
  register_more :
      (seqs : List Sequence) (events : Events Handler E F) (rs : List Registration)
      → Known events rs
      → let s = register_all (record { seqs = some seqs; events = events }) rs in
        (s.seqs ≡ some (seqs ++ map new_sequence rs))
        × (s.events.hooked ≡ events.hooked ++ hooks num (length seqs) rs)
  unfolding tpe_sequence_register started registered
  register_more seqs events [] k =
      (ap (λ l. some l) (sym (append-nil seqs)), sym (append-nil events.hooked))
  register_more seqs events (r ∷ rs) k =
      let h = handle_oids (length seqs) in
      let next = (tpe_event_handler_add events r.oidlist h).0 in
      let ih =
        register_more (seqs ++ (new_sequence r ∷ [])) next rs
          (Known-handler_add events r.oidlist h rs k.1) in
      let n : length (seqs ++ (new_sequence r ∷ [])) ≡ length seqs + 1 =
        length-append seqs (new_sequence r ∷ []) in
      (
        ih.0 ∙ ap (λ l. some l) (append_assoc seqs (new_sequence r ∷ []) (map new_sequence rs)),
        ih.1
            ∙ ap (λ i. next.hooked ++ hooks num i rs) n
            ∙ ap (λ l. l ++ hooks num (length seqs + 1) rs)
                (hooked-handler_add events r.oidlist h (num r.oidlist) k.0)
            ∙ append_assoc events.hooked ((num r.oidlist, h) ∷ []) (hooks num (length seqs + 1) rs),
      )

  -- Where the events of a new turn, of a connection and of each list are known, and
  -- `eina_list_append` puts its element last, registrations from the start on leave their sequences
  -- in order; Ecore gets the handlers of a new turn and of a connection once, and then one handler
  -- for each list, with the sequence of that list.
  register_all-hooks :
      (events : Events Handler E F) (r : Registration) (rs : List Registration)
      → number events "NewTurn" ≡ some (num "NewTurn")
      → number events "Connected" ≡ some (num "Connected")
      → Known events (r ∷ rs)
      → let s = register_all (record { seqs = none; events = events }) (r ∷ rs) in
        (s.seqs ≡ some (map new_sequence (r ∷ rs)))
        × (s.events.hooked
            ≡ events.hooked
              ++ ((num "NewTurn", new_turn) ∷ (num "Connected", connect) ∷ hooks num 0 (r ∷ rs)))
  unfolding tpe_sequence_register started tpe_sequence_init
  register_all-hooks events r rs nt c k =
      let one = (tpe_event_handler_add events "NewTurn" new_turn).0 in
      let two = (tpe_event_handler_add one "Connected" connect).0 in
      let ih = register_more [] two (r ∷ rs) (
        Known-handler_add one "Connected" connect (r ∷ rs)
          (Known-handler_add events "NewTurn" new_turn (r ∷ rs) k)) in
      let h₁ = hooked-handler_add events "NewTurn" new_turn (num "NewTurn") nt in
      let h₂ =
        hooked-handler_add one "Connected" connect (num "Connected")
          (number-handler_add events "NewTurn" "Connected" new_turn ∙ c) in
      (
        ih.0,
        ih.1
            ∙ ap (λ l. l ++ hooks num 0 (r ∷ rs))
                (h₂ ∙ ap (λ l. l ++ ((num "Connected", connect) ∷ [])) h₁)
            ∙ append_assoc (events.hooked ++ ((num "NewTurn", new_turn) ∷ []))
                ((num "Connected", connect) ∷ []) (hooks num 0 (r ∷ rs))
            ∙ append_assoc events.hooked ((num "NewTurn", new_turn) ∷ [])
                ((num "Connected", connect) ∷ hooks num 0 (r ∷ rs)),
      )
