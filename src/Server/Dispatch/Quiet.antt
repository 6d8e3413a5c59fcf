-- ===== src/Server/Dispatch/Quiet.antt =====
-- Callbacks that return and send no requests.
use galaxie.Prelude.{
  ℕ, zero, suc, ◌≡◌, ◌≢◌, ◌<◌, refl, ap, Bool, true, false, not, Option, none, some, List, [], ◌∷◌,
  ◌==◌, if◌then◌else◌, select, arith, length, All, Bool-cases, inl, inr, map,
}
use galaxie.Run.{Run, ok}
use galaxie.Server.{Msg, Server, ServerCb}
use galaxie.Server.Send.{Request}
use galaxie.Server.Dispatch.{sends, run_callback, visit, fire, sweep, answered}

module _ {C W : Type 0} (effect : W → C → Msg → W) where
  -- The effects of the callbacks that wait for the message's number, in the order of the list.
  abbrev effects : W → Msg → List (ServerCb C) → W
  effects w m [] = w
  effects w m (cb ∷ cbs) =
      effects (if cb.seq == m.seq then elim cb.cb [ none ↦ w | some c ↦ effect w c m ] else w) m cbs

  abbrev mark : Msg → ServerCb C → ServerCb C
  mark m cb = if cb.seq == m.seq then record cb { deleteme = true } else cb

  abbrev is_other : Msg → ServerCb C → Bool
  is_other m cb = not (cb.seq == m.seq)

  sweep_marked :
      (m : Msg) (cbs : List (ServerCb C))
      → All (λ cb. cb.deleteme ≡ false) cbs
      → select (λ cb. not cb.deleteme) (map (mark m) cbs) ≡ select (is_other m) cbs
  sweep_marked m [] h = refl
  sweep_marked m (cb ∷ cbs) h = elim (Bool-cases (cb.seq == m.seq)) [
    | inl t ↦ rw t (sweep_marked m cbs h.1)
    | inr t ↦ rw t (ground (arith, h.0, sweep_marked m cbs h.1))
  ]

  module _ (call : W → C → Msg → Run (W × List (Request C)))
      (quiet : (w : W) (c : C) (m : Msg) → call w c m ≡ ok (effect w c m, [])) where
    run_callback_quiet :
        (w : W) (s : Server C) (m : Msg) (cb : Option C)
        → run_callback call w s m cb ≡ ok (elim cb [ none ↦ w | some c ↦ effect w c m ], s)
    unfolding run_callback sends
    run_callback_quiet w s m none = refl
    run_callback_quiet w s m (some c) = rw (quiet w c m) refl

    visit_quiet :
        (w : W) (s : Server C) (m : Msg) (cb : ServerCb C)
        → visit call w s m cb
          ≡ ok (
            (if cb.seq == m.seq then elim cb.cb [ none ↦ w | some c ↦ effect w c m ] else w),
            s,
            mark m cb,
          )
    unfolding visit
    visit_quiet w s m cb = elim (Bool-cases (cb.seq == m.seq)) [
      | inl t ↦ rw (t, run_callback_quiet w s m cb.cb) refl
      | inr t ↦ rw t refl
    ]

    fire_quiet :
        (fuel : ℕ) (w : W) (s : Server C) (m : Msg) (cbs : List (ServerCb C))
        → length cbs < fuel
        → fire call fuel w (record s { cbs = cbs }) m
          ≡ ok (effects w m cbs, record s { cbs = map (mark m) cbs })
    unfolding fire
    fire_quiet zero w s m cbs h = absurd (omega arith)
    fire_quiet (suc fuel) w s m [] h = refl
    fire_quiet (suc fuel) w s m (cb ∷ []) h = rw (visit_quiet w (record s { cbs = [] }) m cb) refl
    fire_quiet (suc fuel) w s m (cb ∷ next ∷ cbs) h =
        rw
          (
            visit_quiet w (record s { cbs = next ∷ cbs }) m cb,
            fire_quiet fuel _ s m (next ∷ cbs) (omega arith),
          )
          refl

    -- A packet with a sequence number, callbacks that return and send nothing, and none of them
    -- marked before: those that wait for the packet's number run once each, in the order of the
    -- list, and are dropped; the others stay, in their order, and nothing else of the server
    -- changes. Fuel above the number of callbacks is enough.
    pub answered-effects :
        (fuel : ℕ) (w : W) (s : Server C) (m : Msg)
        → m.seq ≢ 0
        → All (λ cb. cb.deleteme ≡ false) s.cbs
        → length s.cbs < fuel
        → answered call fuel w s m
          ≡ ok (effects w m s.cbs, record s { cbs = select (is_other m) s.cbs })
    unfolding answered sweep
    answered-effects fuel w s m n h l = elim (Bool-cases (m.seq == 0)) [
      | inl t ↦ absurd (ground (arith, t, n))
      | inr t ↦
          rw (t, fire_quiet fuel w s m s.cbs l)
            (ap (λ cbs. ok (effects w m s.cbs, record s { cbs = cbs })) (sweep_marked m s.cbs h))
    ]
