-- ===== src/P2P/Peers/Unique.antt =====
-- Peers whose names and connections are each held once, as a broadcast needs them, in every run.
use Prim.Native.String.{String}
use inso_validator.Prelude.{
  ℕ, false, Bool, ◌≡◌, ◌↔◌, sym, ap, ◌∙◌, true, List, [], ◌∷◌, Option, none, some, ◌==◌, arith,
  if◌then◌else◌, Bool-cases, Option-cases, inl, inr,
}
use inso_validator.Prelude.Int.{ℤ}
use inso_validator.Prelude.Names.{Names, HasUniqueNames, same, same_iff, find}
use inso_validator.P2P.{MessageType}
use inso_validator.P2P.Peers.{
  Peer, Network, new_network, WireMessage, sent, reachable, send_frame, to_wire, broadcast,
}
use inso_validator.P2P.Peers.Broadcast.{
  is_held, held_by, Unshared, HasOwnConns, AllTake, broadcast_lem,
}
use inso_validator.P2P.Peers.Life.{IsLive}
use inso_validator.P2P.Peers.Run.{Event, run, AllAdmissible, all_closing, started-IsLive}

-- A connection has at most one name.
abbrev HasOneOwner : Names Peer → Type 0
HasOneOwner m =
    (i j : String) (p q : Peer) (c : ℕ)
    → find i m ≡ some p
    → find j m ≡ some q
    → p.conn ≡ some c
    → q.conn ≡ some c
    → i ≡ j

reachable-conn : (p : Peer) (c : ℕ) → reachable p ≡ some c → p.conn ≡ some c
unfolding reachable
reachable-conn p c e = ground arith

find_here : (entry : String × Peer) (rest : Names Peer) → find entry.0 (entry ∷ rest) ≡ some entry.1
find_here entry rest = ground (arith, same_iff entry.0 entry.0)

-- What stands behind an entry has another name.
find_behind :
    (entry : String × Peer) (rest : Names Peer) (i : String) (p : Peer)
    → find entry.0 rest ≡ none
    → find i rest ≡ some p
    → find i (entry ∷ rest) ≡ some p
find_behind entry rest i p once there = elim (Bool-cases (same i entry.0)) [
  | inl here ↦
      let e : i ≡ entry.0 = (same_iff i entry.0).0 here in absurd (cc (ap (λ k. find k rest) e))
  | inr elsewhere ↦ rw elsewhere there
]

held-find :
    (c : ℕ) (m : Names Peer)
    → HasUniqueNames m
    → is_held c m ≡ true
    → (i : String) × (p : Peer) × (find i m ≡ some p) × (p.conn ≡ some c)
held-find c [] unique held = absurd (cc)
held-find c (entry ∷ rest) (once, unique) held = elim (Bool-cases (held_by c (reachable entry.1))) [
  | inl here ↦ elim (Option-cases (reachable entry.1)) [
    | inl idle ↦ absurd (cc (rw idle at here))
    | inr (d, reached) ↦
        let e : c ≡ d = let t : (c == d) ≡ true = rw reached at here in ground arith in
        (entry.0, entry.1, find_here entry rest, reachable-conn entry.1 d reached ∙ ap some (sym e))
  ]
  | inr elsewhere ↦
      let (i, p, there, conn) = held-find c rest unique (rw elsewhere at held) in
      (i, p, find_behind entry rest i p once there, conn)
]

HasOneOwner-HasOwnConns : (m : Names Peer) → HasUniqueNames m → HasOneOwner m → HasOwnConns m
HasOneOwner-HasOwnConns [] unique owner = tt
HasOneOwner-HasOwnConns (entry ∷ rest) (once, unique) owner = (
  elim (Option-cases (reachable entry.1)) [
    | inl idle ↦ rw (idle, Unshared) tt
    | inr (c, reached) ↦
        rw (reached, Unshared)
          (elim (Bool-cases (is_held c rest)) [
            | inl held ↦
                let (i, p, there, conn) = held-find c rest unique held in
                let e : i ≡ entry.0 =
                  owner i entry.0 p entry.1 c (find_behind entry rest i p once there)
                    (find_here entry rest) conn (reachable-conn entry.1 c reached) in
                absurd (cc (ap (λ k. find k rest) e))
            | inr alone ↦ alone
          ])
  ],
  HasOneOwner-HasOwnConns rest unique (λ i j p q c fi fj.
      owner i j p q c (find_behind entry rest i p once fi) (find_behind entry rest j q once fj)),
)

pub IsLive-HasOwnConns : (n : Network) (spared : ℕ → Bool) → IsLive n spared → HasOwnConns n.peers
IsLive-HasOwnConns n spared v = HasOneOwner-HasOwnConns n.peers v.unique v.one_owner

module _ (encode : WireMessage → Option (List ℕ)) (room : ℕ → ℕ) where
  -- After any run of a network that started without peers, in which each connection that is made is
  -- new and each read loop marks its own entry, a broadcast whose message is encoded writes its
  -- frame to the connection of each active peer, as much of it as the connection takes, also after
  -- writes that failed, and writes to no other; it returns no error just if every one of these writes
  -- went through.
  pub started-broadcast :
      (port : ℤ) (bootnodes : List String) (events : List Event)
      → AllAdmissible encode (new_network port bootnodes) events
      → (type : MessageType) (payload message : List ℕ)
      → let n = run encode (new_network port bootnodes) events in
        to_wire encode room n type payload ≡ some message
        → let r = broadcast encode room n type payload in
          ((c : ℕ)
            → r.0.sockets c ≡ (
                if is_held c n.peers
                then (send_frame (room c) (n.sockets c) message).0
                else n.sockets c))
          × ((r.1 ≡ sent) ↔ AllTake room message n.sockets n.peers)
          × (r.0.peers ≡ n.peers)
  started-broadcast port bootnodes events a type payload message encoded =
      let n = run encode (new_network port bootnodes) events in
      broadcast_lem encode room n type payload message encoded (
        IsLive-HasOwnConns n (all_closing (λ c. false) events)
          (started-IsLive encode port bootnodes events a))
