-- ===== src/Sync/Loops/Once.antt =====
-- However the two goroutines interleave, the engine holds the blocks up to its latest one, and each new
-- block reaches the callback once or is about to.
use inso_validator.Prelude.{
  ℕ, ◌+◌, ◌<◌, ◌^◌, ◌≡◌, ◌≢◌, refl, ap, Bool, List, [], ◌∷◌, Option, some, inl, inr, Bool-cases,
  Option-cases, arith, All, length,
}
use inso_validator.P2P.{Message, BlockAnnounce}
use inso_validator.Sync.{L2Block, Engine, process_block, handle_p2p_block}
use inso_validator.Sync.Order.{IsContiguous}
use inso_validator.Sync.Loops.{
  Loops, Listener, listening, announcing, returned, Event, received, handed_over, unlistened,
  ticked, answered, called, unpolled, listen, end_listener, tick, end_poller, is_new_block, step,
  run, start_loops, listener_after,
}
use inso_validator.Sync.Loops.Exact.{
  by_listener, IsExact, Goes, process_block-Taken, by-end_listener, by-end_poller, by-tick, stays,
  call_listener-Goes, call_poller-Goes, listener_kept, poller_kept, heard-Goes, answer-Goes,
}

module _ (decode : List ℕ → Option BlockAnnounce) where
  -- Neither a message nor an answer brings a block numbered 0.
  abbrev pub IsNumbered : Event → Type 0
  IsNumbered (received msg remote) =
      (a : BlockAnnounce) → decode msg.payload ≡ some a → a.number ≢ 0
  IsNumbered (answered block remote) = (b : L2Block) → block ≡ some b → b.number ≢ 0
  IsNumbered handed_over = Unit
  IsNumbered unlistened = Unit
  IsNumbered (ticked remote) = Unit
  IsNumbered called = Unit
  IsNumbered unpolled = Unit

  module _ (first : ℕ) (s : Loops) (h : IsExact first s)
      (fits : s.engine.latest_block + 1 < 2 ^ 64) where
    heard :
        (msg : Message) (remote : Option ℕ)
        → s.listener ≡ listening
        → IsNumbered (received msg remote)
        → (let r = handle_p2p_block decode s.engine msg remote in
            Goes first s (record s { engine = r.0; listener = listener_after r.1 }))
    unfolding handle_p2p_block
    heard msg remote at nz = elim (Option-cases (decode msg.payload)) [
      | inl bad ↦
          rw (bad, handle_p2p_block)
            (stays first s _ h refl (λ k. ground (arith, ap (by_listener k) at)))
      | inr (a, good) ↦
          rw (good, handle_p2p_block)
            (heard-Goes first s h fits _ (process_block s.engine _ remote) at
              (process_block-Taken s.engine _ remote h.contiguous (nz a good) fits))
    ]

    listen-Goes :
        (l : Listener) (msg : Message) (remote : Option ℕ)
        → s.listener ≡ l
        → IsNumbered (received msg remote)
        → Goes first s (listen decode s l msg remote)
    unfolding listen
    listen-Goes listening msg remote at nz = elim (Bool-cases (is_new_block msg.type)) [
      | inl new ↦ rw (new, listen) (heard msg remote at nz)
      | inr other ↦ rw (other, listen) (stays first s s h refl (λ k. refl))
    ]
    listen-Goes (announcing b) msg remote at nz = stays first s s h refl (λ k. refl)
    listen-Goes returned msg remote at nz = stays first s s h refl (λ k. refl)

    pub step-Goes : (e : Event) → IsNumbered e → Goes first s (step decode s e)
    unfolding step
    step-Goes (received msg remote) nz = listen-Goes s.listener msg remote refl nz
    step-Goes handed_over nz = call_listener-Goes first s h s.listener refl
    step-Goes unlistened nz =
        listener_kept first s h (end_listener s.listener) (λ k. by-end_listener k s.listener)
    step-Goes (ticked remote) nz =
        poller_kept first s h (tick s.engine s.poller remote)
          (λ k. by-tick k s.engine s.poller remote)
    step-Goes (answered block remote) nz = answer-Goes first s h fits s.poller block remote refl nz
    step-Goes called nz = call_poller-Goes first s h s.poller refl
    step-Goes unpolled nz =
        poller_kept first s h (end_poller s.poller) (λ k. by-end_poller k s.poller)

  run-IsExact :
      (first : ℕ) (s : Loops) (events : List Event)
      → IsExact first s
      → All IsNumbered events
      → s.engine.latest_block + length events < 2 ^ 64
      → IsExact first (run decode s events)
  unfolding run
  run-IsExact first s [] h nz fits = h
  run-IsExact first s (e ∷ events) h (n, nz) fits =
      let (h', slow, _) = step-Goes first s h (omega arith) e n in
      run-IsExact first (step decode s e) events h' nz (omega arith)

  pub start_loops-IsExact :
      (has_network : Bool) (e : Engine)
      → IsContiguous e
      → IsExact e.latest_block (start_loops has_network e)
  unfolding start_loops
  start_loops-IsExact has_network e c = record {
    contiguous = c;
    grown = omega arith;
    once = λ k. ground arith;
  }

  -- However the listener and the poller interleave, from an engine that holds just the blocks 1 to its
  -- latest, if neither a peer nor the sequencer sends a block numbered 0 and the numbers fit in 64 bits:
  -- the engine goes on to hold just the blocks 1 to its latest, and for each number above the first
  -- latest one, up to the latest, the callback has got one block, or one of the two is about to hand it
  -- over; for any other number there is no call.
  pub started-IsExact :
      (has_network : Bool) (e : Engine) (events : List Event)
      → IsContiguous e
      → All IsNumbered events
      → e.latest_block + length events < 2 ^ 64
      → IsExact e.latest_block (run decode (start_loops has_network e) events)
  unfolding start_loops
  started-IsExact has_network e events c nz fits =
      run-IsExact e.latest_block (start_loops has_network e) events
        (start_loops-IsExact has_network e c) nz fits
