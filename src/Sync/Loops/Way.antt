-- ===== src/Sync/Loops/Way.antt =====
-- Where the poller stands on its way to the last number, and how an answer or a call moves it.
use inso_validator.Prelude.{
  ℕ, ◌+◌, ◌<◌, ◌≤◌, ◌^◌, ◌≡◌, ◌≢◌, refl, sym, ap, subst, ◌∙◌, Option, none, some, ◌⊎◌, inl, inr,
  Bool-cases, arith, leb,
}
use inso_validator.Prelude.Word.{add_u64}
use inso_validator.Sync.{L2Block, Engine, process_block}
use inso_validator.Sync.Order.{IsContiguous}
use inso_validator.Sync.Loops.{
  Loops, Listener, listening, announcing, returned, Poller, waiting, fetching, calling, stopped,
  Event, received, handed_over, unlistened, ticked, answered, called, unpolled, call_listener, tick,
  use_answer, call_poller, end_poller, next_turn, poller_after,
}
use inso_validator.Sync.Loops.Exact.{Taken, process_block-Taken}

-- The answer to a fetch is the block that was asked for.
abbrev pub Answers : Option L2Block → Poller → Type 0
Answers block (fetching num last) = (b : L2Block) × (block ≡ some b) × (b.number ≡ num)
Answers block waiting = Unit
Answers block (calling num last b) = Unit
Answers block stopped = Unit

abbrev pub IsServed : Event → Poller → Type 0
IsServed (answered block remote) p = Answers block p
IsServed (received msg remote) p = Unit
IsServed handed_over p = Unit
IsServed unlistened p = Unit
IsServed (ticked remote) p = Unit
IsServed called p = Unit
IsServed unpolled p = Unit

abbrev pub if_fetching : Poller → ℕ
if_fetching (fetching num last) = 1
if_fetching waiting = 0
if_fetching (calling num last b) = 0
if_fetching stopped = 0

-- Whether the poller fetches.
abbrev pub fetches : Event → Poller → ℕ
fetches (answered block remote) p = if_fetching p
fetches called p = 0
fetches (received msg remote) p = 0
fetches handed_over p = 0
fetches unlistened p = 0
fetches (ticked remote) p = 0
fetches unpolled p = 0

-- Where the poller stands on its way to the last number, with answers enough.
abbrev pub OnWay : ℕ → ℕ → ℕ → Poller → Type 0
OnWay last latest k (fetching num l) =
    (l ≡ last) × (num ≤ last) × (num ≤ latest + 1) × (last + 1 ≤ num + k)
OnWay last latest k (calling num l b) =
    (l ≡ last) × (num ≤ last) × (num ≤ latest) × (last ≤ num + k)
OnWay last latest k waiting = ⊥
OnWay last latest k stopped = ⊥

-- The last number is reached, or the poller is on its way.
abbrev pub Nears : ℕ → ℕ → ℕ → Poller → Type 0
Nears last latest k p = (last ≤ latest) ⊎ OnWay last latest k p

pub OnWay-grown :
    (last latest latest' k : ℕ) (p : Poller)
    → latest ≤ latest'
    → OnWay last latest k p
    → OnWay last latest' k p
OnWay-grown last latest latest' k (fetching num l) g (a, b, c, d) = (a, b, omega arith, d)
OnWay-grown last latest latest' k (calling num l b) g (a, c, d, e) = (a, c, omega arith, e)
OnWay-grown last latest latest' k waiting g o = o
OnWay-grown last latest latest' k stopped g o = o

pub same_answers :
    (last latest n k : ℕ) (p : Poller) → n ≡ k → OnWay last latest n p → OnWay last latest k p
same_answers last latest n k p e o = subst (λ i. OnWay last latest i p) e o

-- After a block the loop goes on with the next number or has passed the last one.
next_turn-Nears :
    (num last latest k : ℕ)
    → last + 1 < 2 ^ 64
    → num ≤ last
    → num ≤ latest
    → last ≤ num + k
    → Nears last latest k (next_turn (add_u64 num 1) last)
next_turn-Nears num last latest k small in_pass there left =
    elim (Bool-cases (leb (num + 1) last)) [
      | inl more ↦
          let e : next_turn (add_u64 num 1) last ≡ fetching (num + 1) last =
            unfold next_turn in ground arith in
          rw e (inr (refl, ground arith, omega arith, omega arith))
      | inr past ↦ inl (ground arith)
    ]

module _ (last : ℕ) (small : last + 1 < 2 ^ 64) (k : ℕ) (s : Loops) where
  -- A block that was asked for is stored by now, by the poller or by the listener.
  Taken-Nears :
      (num : ℕ) (b : L2Block) (r : Engine × Option L2Block)
      → num ≤ last
      → num ≤ s.engine.latest_block + 1
      → last ≤ num + k
      → b.number ≡ num
      → Taken s.engine b r
      → Nears last r.0.latest_block k (poller_after num last r.1)
  Taken-Nears num b r in_pass low left n (inl (same, other)) =
      subst (λ x. Nears last x.0.latest_block k (poller_after num last x.1)) (sym same)
        (next_turn-Nears num last s.engine.latest_block k small in_pass (omega arith) (omega arith))
  Taken-Nears num b r in_pass low left n (inr (taken, next, latest, c)) =
      subst (λ x. Nears last r.0.latest_block k (poller_after num last x)) (sym taken)
        (inr (refl, in_pass, omega arith, omega arith))

  pub answer-Nears :
      (p : Poller) (block : Option L2Block) (remote : Option ℕ)
      → IsContiguous s.engine
      → s.engine.latest_block + 1 < 2 ^ 64
      → ((b : L2Block) → block ≡ some b → b.number ≢ 0)
      → s.poller ≡ p
      → Answers block p
      → OnWay last s.engine.latest_block (if_fetching p + k) p
      → Nears last
          (use_answer s p block remote).engine.latest_block
          k
          (use_answer s p block remote).poller
  unfolding use_answer
  answer-Nears (fetching num l) none remote c fits nz at (b, is, n) o = absurd (cc)
  answer-Nears (fetching num l) (some b') remote c fits nz at (b, is, n)
        (same, in_pass, low, left) =
      let e : b' ≡ b = cc in
      subst
        (λ x.
          Nears last (process_block s.engine b' remote).0.latest_block k
            (poller_after num x (process_block s.engine b' remote).1))
        (sym same)
        (Taken-Nears num b' (process_block s.engine b' remote) in_pass low (omega arith)
          (ap (λ x. x.number) e ∙ n) (process_block-Taken s.engine b' remote c (nz b' refl) fits))
  answer-Nears (calling num l b) block remote c fits nz at served o =
      subst (Nears last s.engine.latest_block k) (sym at)
        (inr (same_answers last s.engine.latest_block (0 + k) k (calling num l b) (omega arith) o))
  answer-Nears waiting block remote c fits nz at served o = absurd o
  answer-Nears stopped block remote c fits nz at served o = absurd o

  pub call-Nears :
      (p : Poller)
      → s.poller ≡ p
      → OnWay last s.engine.latest_block (0 + k) p
      → Nears last (call_poller s p).engine.latest_block k (call_poller s p).poller
  unfolding call_poller
  call-Nears (calling num l b) at (same, in_pass, there, left) =
      subst (λ x. Nears last s.engine.latest_block k (next_turn (add_u64 num 1) x)) (sym same)
        (next_turn-Nears num last s.engine.latest_block k small in_pass there (omega arith))
  call-Nears (fetching num l) at o =
      subst (Nears last s.engine.latest_block k) (sym at)
        (inr (same_answers last s.engine.latest_block (0 + k) k (fetching num l) (omega arith) o))
  call-Nears waiting at o = absurd o
  call-Nears stopped at o = absurd o

pub tick_busy :
    (last latest k : ℕ) (e : Engine) (p : Poller) (remote : Option ℕ)
    → OnWay last latest k p
    → tick e p remote ≡ p
unfolding tick
tick_busy last latest k e (fetching num l) remote o = refl
tick_busy last latest k e (calling num l b) remote o = refl
tick_busy last latest k e waiting remote o = absurd o
tick_busy last latest k e stopped remote o = absurd o

pub end_busy : (last latest k : ℕ) (p : Poller) → OnWay last latest k p → end_poller p ≡ p
unfolding end_poller
end_busy last latest k (fetching num l) o = refl
end_busy last latest k (calling num l b) o = refl
end_busy last latest k waiting o = absurd o
end_busy last latest k stopped o = absurd o

pub listener-poller : (s : Loops) (l : Listener) → (call_listener s l).poller ≡ s.poller
unfolding call_listener
listener-poller s (announcing b) = refl
listener-poller s listening = refl
listener-poller s returned = refl
