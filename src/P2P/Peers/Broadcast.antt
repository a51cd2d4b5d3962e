-- ===== src/P2P/Peers/Broadcast.antt =====
-- Which connections a broadcast writes to, what it returns, and that the peers at the other ends read it.
use Prim.Native.String.{String}
use inso_validator.Prelude.{
  ℕ, ◌≡◌, ◌↔◌, refl, sym, ap, ◌∙◌, Bool, true, false, List, [], ◌∷◌, Option, none, some, ◌==◌, ◌||◌,
  if◌then◌else◌, arith, Bool-cases, Option-cases, inl, inr,
}
use inso_validator.Prelude.Names.{Names}
use inso_validator.P2P.{MessageType}
use inso_validator.P2P.Peers.{
  Peer, Socket, Network, WireMessage, Sent, sent, write_failed, set_socket, reachable, to_wire,
  send_frame, send_all, broadcast,
}

-- The connection belongs to a peer that is reached.
abbrev pub held_by : ℕ → Option ℕ → Bool
held_by c none = false
held_by c (some d) = c == d

abbrev pub is_held : ℕ → Names Peer → Bool
is_held c [] = false
is_held c (entry ∷ rest) = held_by c (reachable entry.1) || is_held c rest

-- No two peers that are reached share a connection.
abbrev pub Unshared : Option ℕ → Names Peer → Type 0
Unshared none rest = Unit
Unshared (some c) rest = is_held c rest ≡ false

abbrev pub HasOwnConns : Names Peer → Type 0
HasOwnConns [] = Unit
HasOwnConns (entry ∷ rest) = Unshared (reachable entry.1) rest × HasOwnConns rest

module _ (room : ℕ → ℕ) (message : List ℕ) where
  -- The connection takes the whole frame.
  abbrev pub takes : (ℕ → Socket) → ℕ → Bool
  takes sockets c = (send_frame (room c) (sockets c) message).1

  after : (ℕ → Socket) → ℕ → ℕ → Socket
  after sockets c = set_socket c (send_frame (room c) (sockets c) message).0 sockets

  -- One write, and what the rest of the loop does.
  write_then :
      (c d : ℕ) (rest : Names Peer) (sockets : ℕ → Socket) {s : Socket}
      → is_held d rest ≡ false
      → s ≡ (
          if is_held c rest
          then (send_frame (room c) (after sockets d c) message).0
          else after sockets d c)
      → s ≡ (
          if held_by c (some d) || is_held c rest
          then (send_frame (room c) (sockets c) message).0
          else sockets c)
  unfolding after
  write_then c d rest sockets alone e = elim (Bool-cases (c == d)) [
    | inl here ↦
        let same : c ≡ d = ground arith in
        let last_write : is_held c rest ≡ false = ap (λ i. is_held i rest) same ∙ alone in
        let target : after sockets d c ≡ (send_frame (room c) (sockets c) message).0 =
          rw here (ap (λ i. (send_frame (room i) (sockets i) message).0) (sym same)) in
        rw here (rw last_write at (e) ∙ target)
    | inr elsewhere ↦ rw elsewhere (rw elsewhere at e)
  ]

  -- The sockets behind the loop.
  send_all_sockets :
      (m : Names Peer) (sockets : ℕ → Socket) (last : Sent) (c : ℕ)
      → HasOwnConns m
      → (send_all room message m sockets last).0 c
        ≡ (if is_held c m then (send_frame (room c) (sockets c) message).0 else sockets c)
  unfolding send_all after
  send_all_sockets [] sockets last c own = refl
  send_all_sockets (entry ∷ rest) sockets last c (mine, own) =
      elim (Option-cases (reachable entry.1)) [
        | inl skipped ↦ rw (skipped, send_all) (send_all_sockets rest sockets last c own)
        | inr (d, reached) ↦
            let alone : is_held d rest ≡ false = rw (reached, Unshared) at mine in
            rw (reached, send_all)
              (write_then c d rest sockets alone (
                send_all_sockets rest (after sockets d)
                  (if takes sockets d then last else write_failed d) c own))
      ]

  abbrev pub AllTake : (ℕ → Socket) → Names Peer → Type 0
  AllTake sockets m = (c : ℕ) → is_held c m ≡ true → takes sockets c ≡ true

  untouched :
      (c d : ℕ) (rest : Names Peer) (sockets : ℕ → Socket)
      → is_held d rest ≡ false
      → is_held c rest ≡ true
      → takes (after sockets d) c ≡ takes sockets c
  unfolding after
  untouched c d rest sockets alone held = elim (Bool-cases (c == d)) [
    | inl here ↦ let same : c ≡ d = ground arith in absurd (cc (ap (λ i. is_held i rest) same))
    | inr elsewhere ↦
        let kept : after sockets d c ≡ sockets c = rw elsewhere refl in
        ap (λ s. (send_frame (room c) s message).1) kept
  ]

  AllTake-step :
      (d : ℕ) (entry : String × Peer) (rest : Names Peer) (sockets : ℕ → Socket)
      → reachable entry.1 ≡ some d
      → is_held d rest ≡ false
      → (AllTake sockets (entry ∷ rest))
        ↔ ((takes sockets d ≡ true) × AllTake (after sockets d) rest)
  AllTake-step d entry rest sockets reached alone = (
    λ all. (
      all d (rw reached (ground arith)),
      λ c held. untouched c d rest sockets alone held ∙ all c (rw (held, reached) (ground arith)),
    ),
    λ (first, others) c held. elim (Bool-cases (c == d)) [
      | inl here ↦ ap (takes sockets) (ground arith) ∙ first
      | inr elsewhere ↦
          let behind : is_held c rest ≡ true = rw (reached, elsewhere) at held in
          sym (untouched c d rest sockets alone behind) ∙ others c behind
    ],
  )

  last_sent :
      (done : Bool) (last : Sent) (d : ℕ)
      → ((if done then last else write_failed d) ≡ sent) ↔ ((done ≡ true) × (last ≡ sent))
  last_sent true last d = ground arith
  last_sent false last d = ground arith

  send_all_result :
      (m : Names Peer) (sockets : ℕ → Socket) (last : Sent)
      → HasOwnConns m
      → ((send_all room message m sockets last).1 ≡ sent) ↔ ((last ≡ sent) × AllTake sockets m)
  unfolding send_all after
  send_all_result [] sockets last own = (λ e. (e, λ c held. absurd (cc)), λ (e, _). e)
  send_all_result (entry ∷ rest) sockets last (mine, own) =
      elim (Option-cases (reachable entry.1)) [
        | inl skipped ↦ rw (skipped, send_all) (send_all_result rest sockets last own)
        | inr (d, reached) ↦
            let alone : is_held d rest ≡ false = rw (reached, Unshared) at mine in
            let ih =
              send_all_result rest (after sockets d)
                (if takes sockets d then last else write_failed d) own in
            let first = last_sent (takes sockets d) last d in
            let all = AllTake-step d entry rest sockets reached alone in
            let turn : send_all room message (entry ∷ rest) sockets last
                ≡ send_all room message rest (after sockets d)
                    (if takes sockets d then last else write_failed d) =
              rw (reached, send_all) refl in
            (
              λ h.
                  let (l, others) = ih.0 (ap (λ x. x.1) (sym turn) ∙ h) in
                  let (done, so_far) = first.0 l in (so_far, all.1 (done, others)),
              λ (so_far, every).
                  let (done, others) = all.0 every in
                  ap (λ x. x.1) turn ∙ ih.1 (first.1 (done, so_far), others),
            )
      ]

module _ (encode : WireMessage → Option (List ℕ)) (room : ℕ → ℕ) where
  ends :
      (n : Network) (type : MessageType) (payload message : List ℕ)
      → to_wire encode room n type payload ≡ some message
      → broadcast encode room n type payload ≡ (
        record n { sockets = (send_all room message n.peers n.sockets sent).0 },
        (send_all room message n.peers n.sockets sent).1,
      )
  unfolding broadcast
  ends n type payload message encoded = rw (encoded, broadcast) refl

  -- A broadcast whose message is encoded writes its frame to the connection of each active peer, as
  -- much of it as the connection takes, also after writes that failed, and writes to no other; it
  -- returns no error just if every one of these writes went through. The peers have connections of
  -- their own.
  pub broadcast_lem :
      (n : Network) (type : MessageType) (payload message : List ℕ)
      → to_wire encode room n type payload ≡ some message
      → HasOwnConns n.peers
      → let r = broadcast encode room n type payload in
        ((c : ℕ)
          → r.0.sockets c ≡ (
              if is_held c n.peers
              then (send_frame (room c) (n.sockets c) message).0
              else n.sockets c))
        × ((r.1 ≡ sent) ↔ AllTake room message n.sockets n.peers)
        × (r.0.peers ≡ n.peers)
  broadcast_lem n type payload message encoded own =
      let turn = ends n type payload message encoded in
      let result = send_all_result room message n.peers n.sockets sent own in
      (
        λ c.
            ap (λ x. x.0.sockets c) turn
            ∙ send_all_sockets room message n.peers n.sockets sent c own,
        (
          λ h. (result.0 (ap (λ x. x.1) (sym turn) ∙ h)).1,
          λ all. ap (λ x. x.1) turn ∙ result.1 (refl, all),
        ),
        ap (λ x. x.0.peers) turn,
      )
