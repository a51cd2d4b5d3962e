-- ===== src/Sync/Loops/Reach.antt =====
-- The poller catches up, whatever the listener does in between.
use inso_validator.Prelude.{
  ℕ, ◌+◌, ◌-◌, ◌<◌, ◌≤◌, ◌^◌, ◌≡◌, refl, sym, ap, subst, true, List, [], ◌∷◌, Option, some, inl,
  inr, Bool-cases, arith, All, length, leb,
}
use inso_validator.Prelude.Word.{add_u64}
use inso_validator.P2P.{Message, BlockAnnounce}
use inso_validator.Sync.{Engine}
use inso_validator.Sync.Loops.{
  Loops, Listener, listening, announcing, returned, Poller, waiting, fetching, calling, stopped,
  Event, received, handed_over, unlistened, ticked, answered, called, unpolled, listen, tick,
  next_turn, begin_pass, is_new_block, step, run,
}
use inso_validator.Sync.Loops.Exact.{IsExact}
use inso_validator.Sync.Loops.Once.{IsNumbered, step-Goes}
use inso_validator.Sync.Loops.Way.{
  IsServed, fetches, OnWay, Nears, OnWay-grown, same_answers, answer-Nears, call-Nears, tick_busy,
  end_busy, listener-poller,
}

module _ (decode : List ℕ → Option BlockAnnounce) where
  listen-poller :
      (s : Loops) (l : Listener) (msg : Message) (remote : Option ℕ)
      → (listen decode s l msg remote).poller ≡ s.poller
  unfolding listen
  listen-poller s listening msg remote = elim (Bool-cases (is_new_block msg.type)) [
    | inl new ↦ rw (new, listen) refl
    | inr other ↦ rw (other, listen) refl
  ]
  listen-poller s (announcing b) msg remote = refl
  listen-poller s returned msg remote = refl

  module _ (last : ℕ) (small : last + 1 < 2 ^ 64) (first k : ℕ) (s : Loops) (h : IsExact first s)
      (fits : s.engine.latest_block + 1 < 2 ^ 64) where
    -- A step in which the poller stays where it is.
    unmoved :
        (e : Event)
        → IsNumbered decode e
        → (step decode s e).poller ≡ s.poller
        → OnWay last s.engine.latest_block (0 + k) s.poller
        → Nears last (step decode s e).engine.latest_block k (step decode s e).poller
    unmoved e nz same o =
        let (_, _, grown) = step-Goes decode first s h fits e nz in
        let latest : ℕ = (step decode s e).engine.latest_block in
        subst (Nears last latest k) (sym same) (
          inr (
            OnWay-grown last s.engine.latest_block latest k s.poller grown
              (same_answers last s.engine.latest_block (0 + k) k s.poller (omega arith) o)))

    on_way :
        (e : Event)
        → IsNumbered decode e
        → IsServed e s.poller
        → OnWay last s.engine.latest_block (fetches e s.poller + k) s.poller
        → Nears last (step decode s e).engine.latest_block k (step decode s e).poller
    unfolding step
    on_way (received msg remote) nz served o =
        unmoved (received msg remote) nz (listen-poller s s.listener msg remote) o
    on_way (answered block remote) nz served o =
        answer-Nears last small k s s.poller block remote h.contiguous fits nz refl served o
    on_way called nz served o = call-Nears last small k s s.poller refl o
    on_way handed_over nz served o = unmoved handed_over nz (listener-poller s s.listener) o
    on_way unlistened nz served o = unmoved unlistened nz refl o
    on_way (ticked remote) nz served o =
        unmoved (ticked remote) nz
          (tick_busy last s.engine.latest_block (0 + k) s.engine s.poller remote o) o
    on_way unpolled nz served o =
        unmoved unpolled nz (end_busy last s.engine.latest_block (0 + k) s.poller o) o

    step-Nears :
        (e : Event)
        → IsNumbered decode e
        → IsServed e s.poller
        → Nears last s.engine.latest_block (fetches e s.poller + k) s.poller
        → Nears last (step decode s e).engine.latest_block k (step decode s e).poller
    step-Nears e nz served (inl reached) =
        let (_, _, grown) = step-Goes decode first s h fits e nz in inl (omega arith)
    step-Nears e nz served (inr o) = on_way e nz served o

  -- In each state that the run goes through.
  abbrev pub AllServed : Loops → List Event → Type 0
  AllServed s [] = Unit
  AllServed s (e ∷ events) = IsServed e s.poller × AllServed (step decode s e) events

  abbrev pub answers : Loops → List Event → ℕ
  answers s [] = 0
  answers s (e ∷ events) = fetches e s.poller + answers (step decode s e) events

  arrived : (last latest : ℕ) (p : Poller) → Nears last latest 0 p → last ≤ latest
  arrived last latest p (inl reached) = reached
  arrived last latest (fetching num l) (inr (a, b, c, d)) = absurd (omega arith)
  arrived last latest (calling num l b) (inr (a, c, d, e)) = omega arith
  arrived last latest waiting (inr o) = absurd o
  arrived last latest stopped (inr o) = absurd o

  run-Nears :
      (last first : ℕ) (s : Loops) (events : List Event)
      → last + 1 < 2 ^ 64
      → IsExact first s
      → All (IsNumbered decode) events
      → AllServed s events
      → s.engine.latest_block + length events < 2 ^ 64
      → Nears last s.engine.latest_block (answers s events) s.poller
      → last ≤ (run decode s events).engine.latest_block
  unfolding run
  run-Nears last first s [] small h nz served fits near =
      arrived last s.engine.latest_block s.poller near
  run-Nears last first s (e ∷ events) small h (n, nz) (g, served) fits near =
      let (h', slow, _) = step-Goes decode first s h (omega arith) e n in
      run-Nears last first (step decode s e) events small h' nz served (omega arith) (
        step-Nears last small first (answers (step decode s e) events) s h (omega arith) e n g near)

  begin-Nears :
      (last k : ℕ) (e : Engine)
      → last + 1 < 2 ^ 64
      → last - e.latest_block ≤ k
      → Nears last e.latest_block k (begin_pass e (some last))
  unfolding begin_pass next_turn
  begin-Nears last k e small enough = elim (Bool-cases (leb last e.latest_block)) [
    | inl there ↦ inl (ground arith)
    | inr behind ↦
        let next : add_u64 e.latest_block 1 ≡ e.latest_block + 1 = ground arith in
        let more : leb (e.latest_block + 1) last ≡ true = ground arith in
        rw (behind, begin_pass, next, more) (inr (refl, ground arith, omega arith, ground arith))
  ]

  -- When the ticker fires while the poller waits, and the sequencer tells its latest number, then, if
  -- each fetch is answered by the block that was asked for, the engine has reached that number once the
  -- poller got as many answers as blocks were missing, whatever the listener receives, stores and hands
  -- over in between. No message and no answer brings a block numbered 0, and the numbers fit in 64 bits.
  pub catches_up :
      (last first : ℕ) (s : Loops) (events : List Event)
      → last + 1 < 2 ^ 64
      → IsExact first s
      → s.poller ≡ waiting
      → All (IsNumbered decode) events
      → AllServed (step decode s (ticked (some last))) events
      → s.engine.latest_block + length events + 1 < 2 ^ 64
      → last - s.engine.latest_block ≤ answers (step decode s (ticked (some last))) events
      → last ≤ (run decode s (ticked (some last) ∷ events)).engine.latest_block
  unfolding run step tick
  catches_up last first s events small h idle nz served fits enough =
      let (h', _, _) = step-Goes decode first s h (omega arith) (ticked (some last)) tt in
      let k : ℕ = answers (step decode s (ticked (some last))) events in
      let begun : tick s.engine s.poller (some last) ≡ begin_pass s.engine (some last) =
        ap (λ p. tick s.engine p (some last)) idle in
      run-Nears last first (step decode s (ticked (some last))) events small h' nz served
        (omega arith)
        (subst (Nears last s.engine.latest_block k) (sym begun)
          (begin-Nears last k s.engine small enough))
