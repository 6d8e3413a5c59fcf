-- ===== src/Server/Names/Laws.antt =====
-- The two searches through the table of message types agree.
use Prim.Native.String.{String}
use text.Mathlib.Text.{◌==◌ as str_eq}
use text.Mathlib.TextEquality.{eq_iff}
use galaxie.Prelude.{
  ℕ, ◌≡◌, refl, Bool, true, false, Option, none, some, List, [], ◌∷◌, arith, All, ◌&&◌, inl, inr,
  Option-cases,
}
use galaxie.Server.Names.{MsgName, msgnames, row_type, type_in, type_of, event_of}

-- The number of a row, if it has one, leads to the row's name.
abbrev LeadsTo : String → Option ℕ → Type 0
LeadsTo name none = Unit
LeadsTo name (some t) = event_of t ≡ some name

abbrev LeadsBack : MsgName → Type 0
LeadsBack e = LeadsTo e.name e.tp03 × LeadsTo e.name e.tp04

leads_to : String → Option ℕ → Bool
leads_to name none = true
leads_to name (some t) = elim (event_of t) [ none ↦ false | some n ↦ str_eq n name ]

lead_back : List MsgName → Bool
unfolding leads_to
lead_back [] = true
lead_back (e ∷ es) = leads_to e.name e.tp03 && leads_to e.name e.tp04 && lead_back es

leads_to→LeadsTo : (name : String) (t : Option ℕ) → leads_to name t ≡ true → LeadsTo name t
unfolding leads_to
leads_to→LeadsTo name none h = tt
leads_to→LeadsTo name (some t) h = elim (Option-cases (event_of t)) [
  | inl e ↦ ground (arith, e)
  | inr (n, e) ↦ ground (arith, e, eq_iff n name)
]

lead_back→All : (es : List MsgName) → lead_back es ≡ true → All LeadsBack es
unfolding lead_back
lead_back→All [] h = tt
lead_back→All (e ∷ es) h = (
  (leads_to→LeadsTo e.name e.tp03 (ground arith), leads_to→LeadsTo e.name e.tp04 (ground arith)),
  lead_back→All es (ground arith),
)

msgnames-LeadsBack : All LeadsBack msgnames
unfolding event_of lead_back
msgnames-LeadsBack = lead_back→All msgnames refl

event_of-row_type :
    (protocol : ℕ) (e : MsgName) (t : ℕ)
    → LeadsBack e
    → row_type protocol e ≡ some t
    → event_of t ≡ some e.name
unfolding row_type
event_of-row_type protocol e t b h = ground arith

event_of-type_in :
    (es : List MsgName) (protocol : ℕ) (name : String) (t : ℕ)
    → All LeadsBack es
    → type_in es protocol name ≡ some (some t)
    → event_of t ≡ some name
unfolding type_in
event_of-type_in [] protocol name t b h = ground arith
event_of-type_in (e ∷ es) protocol name t b h = ground (
  arith,
  eq_iff name e.name,
  event_of-row_type protocol e t b.0,
  event_of-type_in es protocol name t b.1,
)

-- A number that `server_send` puts into a packet for a name, under any protocol, is one that
-- `server_handle_packet` turns back into that name.
event_of-type_of :
    (protocol : ℕ) (name : String) (t : ℕ)
    → type_of protocol name ≡ some (some t)
    → event_of t ≡ some name
unfolding type_of
event_of-type_of protocol name t = event_of-type_in msgnames protocol name t msgnames-LeadsBack
