-- ===== src/Server/Dispatch/One.antt =====
-- One callback waits for the packet, and sends requests.
use galaxie.Prelude.{
  ℕ, zero, suc, ◌+◌, ◌≡◌, ◌≢◌, ◌<◌, refl, ap, Bool, true, false, not, some, List, [], ◌∷◌, ◌++◌,
  ◌==◌, select, arith, length, All, Bool-cases, inl, inr,
}
use galaxie.Run.{Run, ok}
use galaxie.Server.{Msg, Server, ServerCb}
use galaxie.Server.Send.{Request}
use galaxie.Server.Dispatch.{sends, run_callback, visit, fire, sweep, answered}

-- The callback waits for another packet.
abbrev Waits : {C : Type 0} → Msg → ServerCb C → Type 0
Waits m cb = (cb.seq ≢ m.seq) × (cb.deleteme ≡ false)

abbrev unmarked : {C : Type 0} → ServerCb C → Bool
unmarked cb = not cb.deleteme

select_others :
    {C : Type 0} (m : Msg) (cbs : List (ServerCb C)) → All (Waits m) cbs → select unmarked cbs ≡ cbs
select_others m [] h = refl
select_others m (cb ∷ cbs) h = ground (arith, h.0.1, select_others m cbs h.1)

select_one :
    {C : Type 0} (m : Msg) (front : List (ServerCb C)) (cb : ServerCb C) (back : List (ServerCb C))
    → All (Waits m) front
    → cb.deleteme ≡ true
    → All (Waits m) back
    → select unmarked (front ++ (cb ∷ back)) ≡ front ++ back
select_one m [] cb back h d g = ground (arith, d, select_others m back g)
select_one m (x ∷ front) cb back h d g = ground (arith, h.0.1, select_one m front cb back h.1 d g)

module _ {C W : Type 0} (call : W → C → Msg → Run (W × List (Request C))) where
  visit_other :
      (w : W) (s : Server C) (m : Msg) (cb : ServerCb C)
      → Waits m cb
      → visit call w s m cb ≡ ok (w, s, cb)
  unfolding visit
  visit_other w s m cb (n, d) = elim (Bool-cases (cb.seq == m.seq)) [
    | inl t ↦ absurd (ground (arith, t, n))
    | inr t ↦ rw t refl
  ]

  fire_others :
      (fuel : ℕ) (w : W) (s : Server C) (m : Msg) (cbs : List (ServerCb C))
      → All (Waits m) cbs
      → length cbs < fuel
      → fire call fuel w (record s { cbs = cbs }) m ≡ ok (w, record s { cbs = cbs })
  unfolding fire
  fire_others zero w s m cbs h l = absurd (omega arith)
  fire_others (suc fuel) w s m [] h l = refl
  fire_others (suc fuel) w s m (cb ∷ []) h l =
      rw (visit_other w (record s { cbs = [] }) m cb h.0) refl
  fire_others (suc fuel) w s m (cb ∷ next ∷ cbs) h l =
      rw
        (
          visit_other w (record s { cbs = next ∷ cbs }) m cb h.0,
          fire_others fuel w s m (next ∷ cbs) h.1 (omega arith),
        )
        refl

  module _ (w w' : W) (s s' : Server C) (m : Msg) (cb : ServerCb C) (c : C)
      (back : List (ServerCb C)) (rs : List (Request C)) (called : call w c m ≡ ok (w', rs))
      (sent : sends call (record s { cbs = back }) rs ≡ ok s') (others : All (Waits m) s'.cbs) where
    visit_one :
        cb.seq ≡ m.seq
        → cb.cb ≡ some c
        → visit call w (record s { cbs = back }) m cb ≡ ok (w', s', record cb { deleteme = true })
    unfolding visit run_callback
    visit_one e f = elim (Bool-cases (cb.seq == m.seq)) [
      | inl t ↦ rw (t, f, called, sent) refl
      | inr t ↦ absurd (ground (arith, t, e))
    ]

    -- The rest of the loop, behind the callback that ran.
    after_last :
        (fuel : ℕ) (rest : List (ServerCb C))
        → length s'.cbs < fuel
        → (elim rest as (λ b. Run (W × Server C)) [
          | [] ↦ ok (w', s')
          | _ ∷ _ ↦ fire call fuel w' s' m
        ])
          ≡ ok (w', s')
    after_last fuel [] l = refl
    after_last fuel (x ∷ rest) l = fire_others fuel w' s' m s'.cbs others l

    fire_one :
        (fuel : ℕ) (front : List (ServerCb C))
        → cb.seq ≡ m.seq
        → cb.cb ≡ some c
        → All (Waits m) front
        → length front + suc (length s'.cbs) < fuel
        → fire call fuel w (record s { cbs = front ++ (cb ∷ back) }) m
          ≡ ok (w', record s' { cbs = front ++ (record cb { deleteme = true } ∷ s'.cbs) })
    unfolding fire
    fire_one zero front e f h l = absurd (omega arith)
    fire_one (suc fuel) [] e f h l = rw (visit_one e f, after_last fuel back (omega arith)) refl
    fire_one (suc fuel) (x ∷ []) e f h l =
        rw
          (
            visit_other w (record s { cbs = cb ∷ back }) m x h.0,
            fire_one fuel [] e f tt (omega arith),
          )
          refl
    fire_one (suc fuel) (x ∷ y ∷ front) e f h l =
        rw
          (
            visit_other w (record s { cbs = y ∷ (front ++ (cb ∷ back)) }) m x h.0,
            fire_one fuel (y ∷ front) e f h.1 (omega arith),
          )
          refl

    -- A packet with a sequence number for which one callback waits, where the other callbacks, and those
    -- of the requests that it sends, are not marked and wait for other packets: it runs once and is
    -- dropped, the others stay as they are, and those of its requests stand behind them. Fuel of two more
    -- than the callbacks in front of it and those at the end behind it is enough.
    pub answered_one :
        (fuel : ℕ) (front : List (ServerCb C))
        → m.seq ≢ 0
        → cb.seq ≡ m.seq
        → cb.cb ≡ some c
        → All (Waits m) front
        → length front + suc (length s'.cbs) < fuel
        → answered call fuel w (record s { cbs = front ++ (cb ∷ back) }) m
          ≡ ok (w', record s' { cbs = front ++ s'.cbs })
    unfolding answered sweep
    answered_one fuel front n e f h l = elim (Bool-cases (m.seq == 0)) [
      | inl t ↦ absurd (ground (arith, t, n))
      | inr t ↦
          rw (t, fire_one fuel front e f h l)
            (ap (λ cbs. ok (w', record s' { cbs = cbs }))
              (select_one m front (record cb { deleteme = true }) s'.cbs h refl others))
    ]
