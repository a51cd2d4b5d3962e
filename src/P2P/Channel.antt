-- ===== src/P2P/Channel.antt =====
-- internal/p2p/network.go, readLoop: the frames of one connection, decoded and put into the channel of
-- messages, which holds 4096 and drops what comes when it is full. `decode` is the decoding of JSON.
use inso_validator.Prelude.{
  append_nil, ℕ, zero, suc, ◌+◌, ◌≤◌, ◌<◌, ◌≡◌, refl, sym, ap, ◌∙◌, List, [], ◌∷◌, ◌++◌, Option,
  none, some, ltb, if◌then◌else◌, length, length-append, arith, All, Option-cases, inl, inr,
}
use inso_validator.P2P.{Message}
use inso_validator.P2P.Frames.{
  Read, frame, too_large, cut_short, max_message, write_frame, read_frame, read_frame-write_frame,
  read_frame-shorter,
}

-- `make(chan *Message, 4096)`
unfoldable pub capacity : ℕ
capacity = 4096

-- `select { case n.msgCh <- msg: default: }`
unfoldable pub enqueue : List Message → Message → List Message
enqueue channel msg = if ltb (length channel) capacity then channel ++ (msg ∷ []) else channel

-- How the loop ends: with a failed read, or, which is no Go value, with its fuel used up.
pub data Ended : Type 0 where
  closed : List Message → Ended
  stuck : Ended

module _ (decode : List ℕ → Option Message) where
  -- One message that was read; an undecodable one is skipped.
  unfoldable pub accept : List Message → List ℕ → List Message
  accept channel message = elim (decode message) [ none ↦ channel | some msg ↦ enqueue channel msg ]

  unfoldable pub read_loop : ℕ → List ℕ → List Message → Ended
  read_loop zero stream channel = stuck
  read_loop (suc fuel) stream channel = elim (read_frame stream) [
    | frame message rest ↦ read_loop fuel rest (accept channel message)
    | too_large _ ↦ closed channel
    | cut_short ↦ closed channel
  ]

  -- The bytes of a sequence of messages.
  abbrev pub wire : List (List ℕ) → List ℕ
  wire [] = []
  wire (message ∷ messages) = write_frame message ++ wire messages

  abbrev pub decoded : List (List ℕ) → List Message
  decoded [] = []
  decoded (message ∷ messages) = elim (decode message) [
    | none ↦ decoded messages
    | some msg ↦ msg ∷ decoded messages
  ]

  abbrev pub Fits : List ℕ → Type 0
  Fits message = length message ≤ max_message

  -- One turn of the loop, by what was read.
  turn :
      (fuel : ℕ) (stream : List ℕ) (channel : List Message) (r : Read)
      → read_frame stream ≡ r
      → read_loop (suc fuel) stream channel ≡ elim r [
        | frame message rest ↦ read_loop fuel rest (accept channel message)
        | too_large _ ↦ closed channel
        | cut_short ↦ closed channel
      ]
  unfolding read_loop
  turn fuel stream channel r e =
      ap
        (λ r. elim r [
          | frame message rest ↦ read_loop fuel rest (accept channel message)
          | too_large _ ↦ closed channel
          | cut_short ↦ closed channel
        ])
        e

  one_frame :
      (fuel : ℕ) (message rest : List ℕ) (channel : List Message)
      → Fits message
      → read_loop (suc fuel) (write_frame message ++ rest) channel
        ≡ read_loop fuel rest (accept channel message)
  unfolding max_message
  one_frame fuel message rest channel fits =
      turn fuel (write_frame message ++ rest) channel (frame message rest)
        (read_frame-write_frame message rest (omega arith) ∙ small)
    where
      small :
          (if ltb max_message (length message)
            then too_large (length message)
            else frame message rest)
          ≡ frame message rest
      small = ground arith

  append_step :
      (channel more : List Message) (msg : Message)
      → (channel ++ (msg ∷ [])) ++ more ≡ channel ++ (msg ∷ more)
  append_step [] more msg = refl
  append_step (x ∷ channel) more msg = ap (λ l. x ∷ l) (append_step channel more msg)

  no_more : (channel : List Message) (fuel : ℕ) → read_loop (suc fuel) [] channel ≡ closed channel
  unfolding read_loop read_frame
  no_more channel fuel = refl

  accept_skipped :
      (channel : List Message) (message : List ℕ)
      → decode message ≡ none
      → accept channel message ≡ channel
  unfolding accept
  accept_skipped channel message skipped = rw (skipped, accept) refl

  accept_taken :
      (channel : List Message) (message : List ℕ) (msg : Message)
      → decode message ≡ some msg
      → length channel < capacity
      → accept channel message ≡ channel ++ (msg ∷ [])
  unfolding accept enqueue
  accept_taken channel message msg got room = rw (got, accept) (ground arith)

  abbrev after : List Message → List (List ℕ) → Option Message → Ended
  after channel messages o =
      closed (channel ++ elim o [ none ↦ decoded messages | some msg ↦ msg ∷ decoded messages ])

  -- A peer that sends messages of at most 10 MiB and closes the connection has them read one by one,
  -- with fuel for one read per message and one more: if the channel has room for all of them, the
  -- decodable ones stand at its end, in order, and the others are skipped.
  pub read_loop-wire :
      (messages : List (List ℕ)) (channel : List Message)
      → All Fits messages
      → length channel + length messages ≤ capacity
      → read_loop (suc (length messages)) (wire messages) channel
        ≡ closed (channel ++ decoded messages)
  read_loop-wire [] channel f room = no_more channel 0 ∙ ap closed (sym (append_nil channel))
  read_loop-wire (message ∷ messages) channel (fits, f) room =
      one_frame (suc (length messages)) message (wire messages) channel fits
      ∙ elim (Option-cases (decode message)) [
        | inl skipped ↦
            ap (read_loop (suc (length messages)) (wire messages))
              (accept_skipped channel message skipped)
            ∙ read_loop-wire messages channel f (omega arith)
            ∙ ap (after channel messages) (sym skipped)
        | inr (msg, got) ↦
            ap (read_loop (suc (length messages)) (wire messages))
              (accept_taken channel message msg got (omega arith))
            ∙ read_loop-wire messages (channel ++ (msg ∷ [])) f
                (omega (arith, length-append channel (msg ∷ [])))
            ∙ ap closed (append_step channel (decoded messages) msg)
            ∙ ap (after channel messages) (sym got)
      ]

  -- The channel never holds more than its capacity.
  pub accept_bounded :
      (channel : List Message) (message : List ℕ)
      → length channel ≤ capacity
      → length (accept channel message) ≤ capacity
  unfolding accept enqueue
  accept_bounded channel message h = elim (Option-cases (decode message)) [
    | inl skipped ↦ rw (skipped, accept) h
    | inr (msg, got) ↦ rw (got, accept) (ground (arith, length-append channel (msg ∷ [])))
  ]

  -- The loop ends with a failed read and a channel within its capacity.
  abbrev pub Closes : Ended → Type 0
  Closes end = (channel : List Message) × (end ≡ closed channel) × (length channel ≤ capacity)

  by_read :
      (fuel : ℕ) (stream : List ℕ) (channel : List Message) (r : Read)
      → read_frame stream ≡ r
      → length stream < suc fuel
      → length channel ≤ capacity
      → ((rest : List ℕ) (next : List Message)
          → length rest < fuel
          → length next ≤ capacity
          → Closes (read_loop fuel rest next))
      → Closes (read_loop (suc fuel) stream channel)
  by_read fuel stream channel (frame message rest) e fits h loop =
      let shorter = read_frame-shorter stream message rest e in
      let (final, ends, bound) =
        loop rest (accept channel message) (omega (arith, shorter))
          (accept_bounded channel message h) in
      (final, turn fuel stream channel (frame message rest) e ∙ ends, bound)
  by_read fuel stream channel (too_large n) e fits h loop =
      (channel, turn fuel stream channel (too_large n) e, h)
  by_read fuel stream channel cut_short e fits h loop =
      (channel, turn fuel stream channel cut_short e, h)

  -- Reading one connection ends, with fuel for one read per byte and one more, whatever bytes arrive,
  -- and leaves the channel within its capacity of 4096 messages if it was within it.
  pub read_loop_ends :
      (fuel : ℕ) (stream : List ℕ) (channel : List Message)
      → length stream < fuel
      → length channel ≤ capacity
      → Closes (read_loop fuel stream channel)
  read_loop_ends zero stream channel fits h = absurd (omega arith)
  read_loop_ends (suc fuel) stream channel fits h =
      by_read fuel stream channel (read_frame stream) refl fits h
        (λ rest channel' less h'. read_loop_ends fuel rest channel' less h')
