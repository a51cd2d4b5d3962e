-- ===== src/Sync/Loops/Exact.antt =====
-- Each step of the two goroutines keeps the store contiguous and the calls of the callback exact.
-- block reaches the callback once or is about to.
use inso_validator.Prelude.{
  ℕ, ◌+◌, ◌<◌, ◌≤◌, ◌^◌, ◌≡◌, ◌≢◌, refl, sym, ap, subst, ◌∙◌, List, [], ◌∷◌, Option, none, some,
  ◌⊎◌, inl, inr, Bool-cases, arith, ltb, leb, ◌==◌, ◌&&◌, if◌then◌else◌,
}
use inso_validator.Prelude.Word.{add_u64}
use inso_validator.Sync.{L2Block, Engine, process_block}
use inso_validator.Sync.Order.{
  IsContiguous, process_block_next, process_block_other, store-IsContiguous, latest-store,
}
use inso_validator.Sync.Loops.{
  Loops, Listener, listening, announcing, returned, Poller, waiting, fetching, calling, stopped,
  call_listener, end_listener, tick, use_answer, call_poller, end_poller, next_turn, begin_pass,
  listener_after, poller_after,
}

-- How often the number occurs among the blocks.
abbrev pub times : ℕ → List L2Block → ℕ
times k [] = 0
times k (b ∷ bs) = (if b.number == k then 1 else 0) + times k bs

abbrev pub by_listener : ℕ → Listener → ℕ
by_listener k (announcing b) = if b.number == k then 1 else 0
by_listener k listening = 0
by_listener k returned = 0

abbrev pub by_poller : ℕ → Poller → ℕ
by_poller k (calling num last b) = if b.number == k then 1 else 0
by_poller k waiting = 0
by_poller k (fetching num last) = 0
by_poller k stopped = 0

-- The calls of the callback for a number, those included that a goroutine is about to make.
abbrev pub calls : ℕ → Loops → ℕ
calls k s = times k s.handed + (by_listener k s.listener + by_poller k s.poller)

-- The blocks 1 to the latest are stored, and those above `first` have their one call.
pub record IsExact (first : ℕ) (s : Loops) : Type 0 where
  pub contiguous : IsContiguous s.engine
  pub grown : first ≤ s.engine.latest_block
  pub once : (k : ℕ) → calls k s ≡ (if ltb first k && leb k s.engine.latest_block then 1 else 0)

-- What a step may do: it stays exact, and stores one block at most.
abbrev pub Goes : ℕ → Loops → Loops → Type 0
Goes first s s' =
    IsExact first s'
    × (s'.engine.latest_block ≤ s.engine.latest_block + 1)
    × (s.engine.latest_block ≤ s'.engine.latest_block)

-- The two ways in which a block that is not numbered 0 can be processed.
abbrev pub Taken : Engine → L2Block → Engine × Option L2Block → Type 0
Taken e b r =
    ((r ≡ (e, none)) × (b.number ≢ e.latest_block + 1))
    ⊎ ((r.1 ≡ some b)
        × (b.number ≡ e.latest_block + 1)
        × (r.0.latest_block ≡ e.latest_block + 1)
        × IsContiguous r.0)

pub process_block-Taken :
    (e : Engine) (b : L2Block) (remote : Option ℕ)
    → IsContiguous e
    → b.number ≢ 0
    → e.latest_block + 1 < 2 ^ 64
    → Taken e b (process_block e b remote)
process_block-Taken e b remote h nz fits = elim (Bool-cases (b.number == e.latest_block + 1)) [
  | inl hit ↦
      let next : b.number ≡ e.latest_block + 1 = ground arith in
      rw (process_block_next e b remote h nz fits hit)
        (inr (refl, next, latest-store e b remote ∙ next, store-IsContiguous e b remote h next))
  | inr miss ↦ inl (process_block_other e b remote h nz fits miss, ground arith)
]

by-next_turn : (k num last : ℕ) → by_poller k (next_turn num last) ≡ 0
by-next_turn k num last = elim (Bool-cases (leb num last)) [
  | inl more ↦ unfold next_turn in rw more refl
  | inr past ↦ unfold next_turn in rw past refl
]

pub by-end_listener : (k : ℕ) (l : Listener) → by_listener k (end_listener l) ≡ by_listener k l
unfolding end_listener
by-end_listener k (announcing b) = refl
by-end_listener k listening = refl
by-end_listener k returned = refl

pub by-end_poller : (k : ℕ) (p : Poller) → by_poller k (end_poller p) ≡ by_poller k p
unfolding end_poller
by-end_poller k waiting = refl
by-end_poller k (fetching num last) = refl
by-end_poller k (calling num last b) = refl
by-end_poller k stopped = refl

by-begin_pass : (k : ℕ) (e : Engine) (remote : Option ℕ) → by_poller k (begin_pass e remote) ≡ 0
unfolding begin_pass
by-begin_pass k e none = refl
by-begin_pass k e (some last) = ground (arith, by-next_turn k (add_u64 e.latest_block 1) last)

pub by-tick :
    (k : ℕ) (e : Engine) (p : Poller) (remote : Option ℕ)
    → by_poller k (tick e p remote) ≡ by_poller k p
unfolding tick
by-tick k e waiting remote = by-begin_pass k e remote
by-tick k e (fetching num last) remote = refl
by-tick k e (calling num last b) remote = refl
by-tick k e stopped remote = refl

module _ (first : ℕ) (s s' : Loops) (h : IsExact first s) where
  -- The engine stays, and a call is made or none.
  pub stays : s'.engine ≡ s.engine → ((k : ℕ) → calls k s' ≡ calls k s) → Goes first s s'
  stays same kept =
      let latest : s'.engine.latest_block ≡ s.engine.latest_block = ap (λ e. e.latest_block) same in
      (
        record {
          contiguous = subst IsContiguous (sym same) h.contiguous;
          grown = omega arith;
          once = λ k. ground (arith, kept k, h.once k);
        },
        omega arith,
        omega arith,
      )

  -- The next block is stored, and is about to be handed over.
  stores :
      (b : L2Block)
      → b.number ≡ s.engine.latest_block + 1
      → s'.engine.latest_block ≡ s.engine.latest_block + 1
      → IsContiguous s'.engine
      → ((k : ℕ) → calls k s' ≡ calls k s + (if b.number == k then 1 else 0))
      → Goes first s s'
  stores b next latest c more = (
    record {
      contiguous = c;
      grown = omega (arith, h.grown);
      once = λ k. ground (arith, more k, h.once k, h.grown);
    },
    omega arith,
    omega arith,
  )

module _ (first : ℕ) (s : Loops) (h : IsExact first s) where
  pub call_listener-Goes : (l : Listener) → s.listener ≡ l → Goes first s (call_listener s l)
  unfolding call_listener
  call_listener-Goes (announcing b) at =
      stays first s _ h refl (λ k. ground (arith, ap (by_listener k) at))
  call_listener-Goes listening at = stays first s s h refl (λ k. refl)
  call_listener-Goes returned at = stays first s s h refl (λ k. refl)

  pub call_poller-Goes : (p : Poller) → s.poller ≡ p → Goes first s (call_poller s p)
  unfolding call_poller
  call_poller-Goes (calling num last b) at =
      stays first s _ h refl
        (λ k. ground (arith, ap (by_poller k) at, by-next_turn k (add_u64 num 1) last))
  call_poller-Goes waiting at = stays first s s h refl (λ k. refl)
  call_poller-Goes (fetching num last) at = stays first s s h refl (λ k. refl)
  call_poller-Goes stopped at = stays first s s h refl (λ k. refl)

  pub listener_kept :
      (l : Listener)
      → ((k : ℕ) → by_listener k l ≡ by_listener k s.listener)
      → Goes first s (record s { listener = l })
  listener_kept l same =
      stays first s _ h refl (λ k. ap (λ n. times k s.handed + (n + by_poller k s.poller)) (same k))

  pub poller_kept :
      (p : Poller)
      → ((k : ℕ) → by_poller k p ≡ by_poller k s.poller)
      → Goes first s (record s { poller = p })
  poller_kept p same =
      stays first s _ h refl
        (λ k. ap (λ n. times k s.handed + (by_listener k s.listener + n)) (same k))

module _ (first : ℕ) (s : Loops) (h : IsExact first s)
    (fits : s.engine.latest_block + 1 < 2 ^ 64) where
  -- What the listener does with a block that was processed or not.
  pub heard-Goes :
      (b : L2Block) (r : Engine × Option L2Block)
      → s.listener ≡ listening
      → Taken s.engine b r
      → Goes first s (record s { engine = r.0; listener = listener_after r.1 })
  heard-Goes b r at (inl (same, _)) = stays first s _ h (ap (λ x. x.0) same) (λ k.
      ground (arith, ap (by_listener k) at, ap (λ x. by_listener k (listener_after x.1)) same))
  heard-Goes b r at (inr (taken, next, latest, c)) =
      stores first s _ h b next latest c (λ k.
        ground (arith, ap (by_listener k) at, ap (λ x. by_listener k (listener_after x)) taken))

  fetched-Goes :
      (b : L2Block) (r : Engine × Option L2Block) (num last : ℕ)
      → s.poller ≡ fetching num last
      → Taken s.engine b r
      → Goes first s (record s { engine = r.0; poller = poller_after num last r.1 })
  fetched-Goes b r num last at (inl (same, _)) = stays first s _ h (ap (λ x. x.0) same) (λ k.
      ground (
        arith,
        ap (by_poller k) at,
        ap (λ x. by_poller k (poller_after num last x.1)) same,
        by-next_turn k (add_u64 num 1) last,
      ))
  fetched-Goes b r num last at (inr (taken, next, latest, c)) =
      stores first s _ h b next latest c (λ k.
        ground (arith, ap (by_poller k) at, ap (λ x. by_poller k (poller_after num last x)) taken))

  pub answer-Goes :
      (p : Poller) (block : Option L2Block) (remote : Option ℕ)
      → s.poller ≡ p
      → ((b : L2Block) → block ≡ some b → b.number ≢ 0)
      → Goes first s (use_answer s p block remote)
  unfolding use_answer
  answer-Goes (fetching num last) none remote at nz =
      stays first s _ h refl (λ k. ground (arith, ap (by_poller k) at))
  answer-Goes (fetching num last) (some b) remote at nz =
      fetched-Goes b (process_block s.engine b remote) num last at
        (process_block-Taken s.engine b remote h.contiguous (nz b refl) fits)
  answer-Goes waiting block remote at nz = stays first s s h refl (λ k. refl)
  answer-Goes (calling num last b) block remote at nz = stays first s s h refl (λ k. refl)
  answer-Goes stopped block remote at nz = stays first s s h refl (λ k. refl)
