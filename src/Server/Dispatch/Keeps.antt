-- ===== src/Server/Dispatch/Keeps.antt =====
-- What holds of the program's state, of the callbacks that wait and of the packets that were sent,
-- kept through the callbacks of a packet.
use galaxie.Prelude.{
  ℕ, zero, suc, ◌≡◌, Bool, not, Option, none, some, List, [], ◌∷◌, ◌++◌, ◌==◌, select, length, leb,
  All, Bool-cases, inl, inr, Option-cases,
}
use galaxie.Run.{Run, ok, ◌>>=◌, Returns, >>=-Returns, Returns-ok}
use galaxie.Server.{Msg, Server, ServerCb}
use galaxie.Server.Names.{type_of}
use galaxie.Server.Send.{Request, packet_bytes, next_seq, server_cb_add, server_sent, server_send}
use galaxie.Server.Dispatch.{sends, run_callback, visit, fire, sweep, answered}

snoc-All {ℓ κ} :
    {A : Type ℓ} (P : A → Type κ) (xs : List A) (x : A) → All P xs → P x → All P (xs ++ (x ∷ []))
snoc-All P [] x h p = (p, tt)
snoc-All P (y ∷ xs) x h p = (h.0, snoc-All P xs x h.1 p)

select-All {ℓ κ} :
    {A : Type ℓ} (P : A → Type κ) (p : A → Bool) (xs : List A) → All P xs → All P (select p xs)
select-All P p [] h = tt
select-All P p (x ∷ xs) h = elim (Bool-cases (p x)) [
  | inl t ↦ rw t (h.0, select-All P p xs h.1)
  | inr t ↦ rw t (select-All P p xs h.1)
]

-- A callback pointer that may be NULL.
abbrev pub Good : {C : Type 0} → (C → Type 0) → Option C → Type 0
Good G none = Unit
Good G (some c) = G c

abbrev pub IsSafe : {C : Type 0} → (C → Type 0) → (List ℕ → Type 0) → Server C → Type 0
IsSafe G S s = All (λ cb. Good G cb.cb) s.cbs × All S s.sent

module _ {C W : Type 0} (Q : W → Type 0) (P : Request C → Type 0) (G : C → Type 0)
    (S : List ℕ → Type 0) where
  -- The requests of a kind are sent as packets of a kind, and wait with callbacks of a kind.
  abbrev pub Makes : Type 0
  Makes =
      (s : Server C) (r : Request C) (t : ℕ)
      → P r
      → type_of s.protocol r.type ≡ some (some t)
      → S (packet_bytes s.header (next_seq s) t r.body) × Good G r.cb

  module _ (makes : Makes) where
    pub server_send-IsSafe :
        (s : Server C) (r : Request C)
        → IsSafe G S s
        → P r
        → Returns (λ out. IsSafe G S out.0) (server_send s r)
    unfolding server_send server_sent server_cb_add
    server_send-IsSafe s r h p = elim (Bool-cases (leb 100000 (length r.body))) [
      | inl t ↦ rw t tt
      | inr t ↦ elim (Option-cases (type_of s.protocol r.type)) [
        | inl e ↦ rw (t, e) tt
        | inr (none, e) ↦ rw (t, e) h
        | inr (some type, e) ↦
            let (q, g) = makes s r type p e in
            rw (t, e) (snoc-All (λ cb. Good G cb.cb) s.cbs _ h.0 g, snoc-All S s.sent _ h.1 q)
      ]
    ]

    module _ (call : W → C → Msg → Run (W × List (Request C))) where
      pub sends-IsSafe :
          (s : Server C) (rs : List (Request C))
          → IsSafe G S s
          → All P rs
          → Returns (IsSafe G S) (sends call s rs)
      unfolding sends
      sends-IsSafe s [] h p = h
      sends-IsSafe s (r ∷ rs) h p = >>=-Returns (IsSafe G S) (server_send s r) _ (λ out e.
          sends-IsSafe out.0 rs
            (Returns-ok (λ o. IsSafe G S o.0) _ (server_send-IsSafe s r h p.0) e) p.1)

      abbrev pub IsKept : W × Server C → Type 0
      IsKept out = Q out.0 × IsSafe G S out.1

      abbrev Visited : W × Server C × ServerCb C → Type 0
      Visited v = Q v.0 × IsSafe G S v.1 × Good G (v.2).cb

      module _
          (calls : (w : W) (c : C) (m : Msg)
            → Q w
            → G c
            → Returns (λ out. Q out.0 × All P out.1) (call w c m)) where
        run_callback-IsKept :
            (w : W) (s : Server C) (m : Msg) (cb : Option C)
            → Q w
            → IsSafe G S s
            → Good G cb
            → Returns IsKept (run_callback call w s m cb)
        unfolding run_callback
        run_callback-IsKept w s m none q h g = (q, h)
        run_callback-IsKept w s m (some c) q h g = >>=-Returns IsKept (call w c m) _ (λ r e.
            let kept = Returns-ok (λ out. Q out.0 × All P out.1) _ (calls w c m q g) e in
            >>=-Returns IsKept (sends call s r.1) _
              (λ s' e'. (kept.0, Returns-ok (IsSafe G S) _ (sends-IsSafe s r.1 h kept.1) e')))

        visit-Visited :
            (w : W) (s : Server C) (m : Msg) (cb : ServerCb C)
            → Q w
            → IsSafe G S s
            → Good G cb.cb
            → Returns Visited (visit call w s m cb)
        unfolding visit
        visit-Visited w s m cb q h g = elim (Bool-cases (cb.seq == m.seq)) [
          | inl t ↦ rw t (
              >>=-Returns Visited (run_callback call w s m cb.cb) _ (λ r e.
                let kept = Returns-ok IsKept _ (run_callback-IsKept w s m cb.cb q h g) e in
                (kept.0, kept.1, g)))
          | inr t ↦ rw t (q, h, g)
        ]

        -- The callbacks before the current one come back in front of the others.
        with_cb :
            (v : W × Server C × ServerCb C) (run : Run (W × Server C))
            → Visited v
            → Returns IsKept run
            → Returns IsKept (run >>= λ r. ok (r.0, record r.1 { cbs = v.2 ∷ (r.1).cbs }))
        with_cb v run g h =
            >>=-Returns IsKept run _
              (λ r e. let kept = Returns-ok IsKept run h e in (kept.0, ((g.2, kept.1.0), kept.1.1)))

        fire-IsKept :
            (fuel : ℕ) (w : W) (s : Server C) (m : Msg) (cbs : List (ServerCb C))
            → Q w
            → IsSafe G S (record s { cbs = cbs })
            → Returns IsKept (fire call fuel w (record s { cbs = cbs }) m)
        unfolding fire
        fire-IsKept zero w s m cbs q h = tt
        fire-IsKept (suc fuel) w s m [] q h = (q, h)
        fire-IsKept (suc fuel) w s m (cb ∷ []) q h =
            >>=-Returns IsKept (visit call w (record s { cbs = [] }) m cb) _ (λ v e.
              let g =
                Returns-ok Visited _
                  (visit-Visited w (record s { cbs = [] }) m cb q (tt, h.1) h.0.0) e in
              with_cb v (ok (v.0, v.1)) g (g.0, g.1))
        fire-IsKept (suc fuel) w s m (cb ∷ next ∷ back) q h =
            >>=-Returns IsKept (visit call w (record s { cbs = next ∷ back }) m cb) _ (λ v e.
              let g =
                Returns-ok Visited _
                  (visit-Visited w (record s { cbs = next ∷ back }) m cb q (h.0.1, h.1) h.0.0) e in
              with_cb v (fire call fuel v.0 v.1 m) g (fire-IsKept fuel v.0 v.1 m (v.1).cbs g.0 g.1))

        pub answered-IsKept :
            (fuel : ℕ) (w : W) (s : Server C) (m : Msg)
            → Q w
            → IsSafe G S s
            → Returns IsKept (answered call fuel w s m)
        unfolding answered sweep
        answered-IsKept fuel w s m q h = elim (Bool-cases (m.seq == 0)) [
          | inl t ↦ rw t (q, h)
          | inr t ↦ rw t (
              >>=-Returns IsKept (fire call fuel w s m) _ (λ r e.
                let kept = Returns-ok IsKept _ (fire-IsKept fuel w s m s.cbs q h) e in
                (
                  kept.0,
                  (
                    select-All (λ cb. Good G cb.cb) (λ cb. not cb.deleteme) (r.1).cbs kept.1.0,
                    kept.1.1,
                  ),
                )))
        ]
