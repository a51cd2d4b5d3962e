-- ===== src/P2P/Peers/Run.antt =====
-- internal/p2p/network.go: what happens to the table of peers while the network runs, in some order.
use Prim.Native.String.{String}
use inso_validator.Prelude.{
  ℕ, ◌≡◌, refl, ◌∙◌, Bool, true, false, List, [], ◌∷◌, Option, if◌then◌else◌, arith, Option-cases,
  inl, inr,
}
use inso_validator.Prelude.Int.{ℤ}
use inso_validator.Prelude.Names.{Names, find}
use inso_validator.P2P.{MessageType}
use inso_validator.P2P.Peers.{
  Peer, Socket, Network, new_network, WireMessage, Sent, sent, write_failed, set_socket, hang_up,
  mark_inactive, stop, check_peer_liveness, reachable, send_frame, to_wire, send_all, broadcast,
  send_conn, send_to, announce, handle_inbound, dialed,
}
use inso_validator.P2P.Peers.Life.{
  IsLive, IsFresh, IsOwn, connect-IsLive, hang_up-IsLive, mark-IsLive, stop-IsLive, check-IsLive,
  spare,
}

-- A connection that came in or was dialled, the two steps in which a read loop ends, a check of the
-- peers, the two ways to send, and the stop. `room` is how many bytes each connection takes.
pub data Event : Type 0 where
  came_in : String → ℕ → (ℕ → ℕ) → Event
  went_out : String → ℕ → (ℕ → ℕ) → Event
  hung_up : ℕ → Event
  marked : String → ℕ → Event
  checked : (ℕ → Bool) → Event
  broadcasted : MessageType → List ℕ → (ℕ → ℕ) → Event
  sent_one : String → MessageType → List ℕ → (ℕ → ℕ) → Event
  halted : Event

-- The connections that a read loop has closed and whose peer it has not marked yet, and those of before
-- the stop, up to now and after one more event.
abbrev pub closing : (ℕ → Bool) → Event → ℕ → Bool
closing spared (came_in remote conn room) = spare conn false spared
closing spared (went_out addr conn room) = spare conn false spared
closing spared (hung_up conn) = spare conn true spared
closing spared (marked id conn) = spare conn false spared
closing spared (checked alive) = spared
closing spared (broadcasted type payload room) = spared
closing spared (sent_one id type payload room) = spared
closing spared halted = λ c. true

abbrev pub all_closing : (ℕ → Bool) → List Event → ℕ → Bool
all_closing spared [] = spared
all_closing spared (e ∷ events) = all_closing (closing spared e) events

module _ (encode : WireMessage → Option (List ℕ)) where
  unfoldable pub step : Network → Event → Network
  step n (came_in remote conn room) = handle_inbound encode room n remote conn
  step n (went_out addr conn room) = dialed encode room n addr conn
  step n (hung_up conn) = hang_up n conn
  step n (marked id conn) = mark_inactive n id
  step n (checked alive) = check_peer_liveness alive n
  step n (broadcasted type payload room) = (broadcast encode room n type payload).0
  step n (sent_one id type payload room) = (send_to encode room n id type payload).0
  step n halted = stop n

  unfoldable pub run : Network → List Event → Network
  run n [] = n
  run n (e ∷ events) = run (step n e) events

  -- A connection that is made is a new one, and a read loop marks the entry that it was started for.
  abbrev pub IsAdmissible : Network → Event → Type 0
  IsAdmissible n (came_in remote conn room) = IsFresh n conn
  IsAdmissible n (went_out addr conn room) = IsFresh n conn
  IsAdmissible n (marked id conn) = IsOwn n id conn
  IsAdmissible n _ = Unit

  abbrev pub AllAdmissible : Network → List Event → Type 0
  AllAdmissible n [] = Unit
  AllAdmissible n (e ∷ events) = IsAdmissible n e × AllAdmissible (step n e) events

-- Sending opens and closes nothing.
Kept : (ℕ → Socket) → (ℕ → Socket) → Type 0
Kept before after = (d : ℕ) → (after d).is_closed ≡ (before d).is_closed

Kept-IsLive :
    (n : Network) (spared : ℕ → Bool) (sockets : ℕ → Socket)
    → Kept n.sockets sockets
    → IsLive n spared
    → IsLive (record n { sockets = sockets }) spared
unfolding Kept
Kept-IsLive n spared sockets kept v = record {
  unique = v.unique;
  is_open = λ i p d found active conn guarded. kept d ∙ v.is_open i p d found active conn guarded;
  one_owner = v.one_owner;
}

send_frame-Kept :
    (room c : ℕ) (sockets : ℕ → Socket) (message : List ℕ)
    → Kept sockets (set_socket c (send_frame room (sockets c) message).0 sockets)
unfolding Kept send_frame
send_frame-Kept room c sockets message d = ground arith

module _ (encode : WireMessage → Option (List ℕ)) (room : ℕ → ℕ) where
  send_all-Kept :
      (message : List ℕ) (m : Names Peer) (sockets : ℕ → Socket) (last : Sent)
      → Kept sockets (send_all room message m sockets last).0
  unfolding Kept send_all
  send_all-Kept message [] sockets last d = refl
  send_all-Kept message (entry ∷ rest) sockets last d = elim (Option-cases (reachable entry.1)) [
    | inl skipped ↦ rw (skipped, send_all) (send_all-Kept message rest sockets last d)
    | inr (c, reached) ↦
        rw (reached, send_all)
          (send_all-Kept message rest
              (set_socket c (send_frame (room c) (sockets c) message).0 sockets)
              (if (send_frame (room c) (sockets c) message).1 then last else write_failed c) d
            ∙ send_frame-Kept (room c) c sockets message d)
  ]

  broadcast-IsLive :
      (n : Network) (type : MessageType) (payload : List ℕ) (spared : ℕ → Bool)
      → IsLive n spared
      → IsLive (broadcast encode room n type payload).0 spared
  unfolding broadcast
  broadcast-IsLive n type payload spared v =
      elim (Option-cases (to_wire encode room n type payload)) [
        | inl failed ↦ rw (failed, broadcast) v
        | inr (message, encoded) ↦
            rw (encoded, broadcast)
              (Kept-IsLive n spared (send_all room message n.peers n.sockets sent).0
                (send_all-Kept message n.peers n.sockets sent) v)
      ]

  send_conn-IsLive :
      (n : Network) (c : ℕ) (type : MessageType) (payload : List ℕ) (spared : ℕ → Bool)
      → IsLive n spared
      → IsLive (send_conn encode room n c type payload).0 spared
  unfolding send_conn
  send_conn-IsLive n c type payload spared v =
      elim (Option-cases (to_wire encode room n type payload)) [
        | inl failed ↦ rw (failed, send_conn) v
        | inr (message, encoded) ↦
            rw (encoded, send_conn)
              (Kept-IsLive n spared
                (set_socket c (send_frame (room c) (n.sockets c) message).0 n.sockets)
                (send_frame-Kept (room c) c n.sockets message) v)
      ]

  send_to-IsLive :
      (n : Network) (id : String) (type : MessageType) (payload : List ℕ) (spared : ℕ → Bool)
      → IsLive n spared
      → IsLive (send_to encode room n id type payload).0 spared
  unfolding send_to
  send_to-IsLive n id type payload spared v = elim (Option-cases (find id n.peers)) [
    | inl absent ↦ rw (absent, send_to) v
    | inr (p, found) ↦ elim (Option-cases (reachable p)) [
      | inl idle ↦ rw (found, send_to, idle) v
      | inr (c, reached) ↦ rw (found, send_to, reached) (send_conn-IsLive n c type payload spared v)
    ]
  ]

module _ (encode : WireMessage → Option (List ℕ)) where
  step-IsLive :
      (n : Network) (spared : ℕ → Bool) (e : Event)
      → IsLive n spared
      → IsAdmissible encode n e
      → IsLive (step encode n e) (closing spared e)
  unfolding step handle_inbound dialed announce
  step-IsLive n spared (came_in remote conn room) v a =
      send_conn-IsLive encode room _ conn _ _ (spare conn false spared)
        (connect-IsLive n spared _ remote conn v a)
  step-IsLive n spared (went_out addr conn room) v a =
      send_conn-IsLive encode room _ conn _ _ (spare conn false spared)
        (connect-IsLive n spared _ addr conn v a)
  step-IsLive n spared (hung_up conn) v a = hang_up-IsLive n spared conn v
  step-IsLive n spared (marked id conn) v a = mark-IsLive n spared id conn v a
  step-IsLive n spared (checked alive) v a = check-IsLive alive n spared v
  step-IsLive n spared (broadcasted type payload room) v a =
      broadcast-IsLive encode room n type payload spared v
  step-IsLive n spared (sent_one id type payload room) v a =
      send_to-IsLive encode room n id type payload spared v
  step-IsLive n spared halted v a = stop-IsLive n spared v

  run-IsLive :
      (n : Network) (spared : ℕ → Bool) (events : List Event)
      → IsLive n spared
      → AllAdmissible encode n events
      → IsLive (run encode n events) (all_closing spared events)
  unfolding run
  run-IsLive n spared [] v a = v
  run-IsLive n spared (e ∷ events) v (a, rest) =
      run-IsLive (step encode n e) (closing spared e) events (step-IsLive n spared e v a) rest

-- A network without peers, in which no connection is spared.
pub fresh-IsLive :
    (port : ℤ) (bootnodes : List String) → IsLive (new_network port bootnodes) (λ c. false)
unfolding new_network
fresh-IsLive port bootnodes = record {
  unique = tt;
  is_open = λ i p d found active conn guarded. absurd (cc);
  one_owner = λ i j p q d fi fj ci cj. absurd (cc);
}

module _ (encode : WireMessage → Option (List ℕ)) where
  -- In a network that started without peers, whatever comes in, is dialled, ends, is probed, sent or
  -- stopped, in any order, where a read loop closes its connection and marks its peer in two steps: no
  -- connection belongs to two peers and no name stands twice in the table; and a peer that counts as
  -- active has an open connection, unless its read loop has just closed it and has not marked the peer
  -- yet, or it connected before the network was stopped. Each connection that is made is new and each
  -- read loop marks its own entry.
  pub started-IsLive :
      (port : ℤ) (bootnodes : List String) (events : List Event)
      → AllAdmissible encode (new_network port bootnodes) events
      → IsLive (run encode (new_network port bootnodes) events) (all_closing (λ c. false) events)
  started-IsLive port bootnodes events a =
      run-IsLive encode (new_network port bootnodes) (λ c. false) events
        (fresh-IsLive port bootnodes) a
