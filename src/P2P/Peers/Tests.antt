-- ===== src/P2P/Peers/Tests.antt =====
-- The table of peers on concrete inputs.
use inso_validator.Prelude.{
  ℕ, false, ◌≡◌, ◌↔◌, refl, true, List, [], ◌∷◌, Option, none, some, arith, ◌==◌, if◌then◌else◌,
}
use inso_validator.Float.{abs}
use inso_validator.Prelude.Int.{pos}
use inso_validator.P2P.{Message, msg_new_block, msg_slash_report}
use inso_validator.Bytes.{be_bytes}
use inso_validator.Text.{decimal, numeral_text, digit_text}
use inso_validator.P2P.Frames.{write_frame, max_message}
use inso_validator.P2P.Channel.{capacity, closed, read_loop, decoded}
use inso_validator.P2P.Peers.{
  Network, connect, announce, send_conn, handle_inbound, count_active, to_wire, type_number,
  reachable, send_all, WireMessage, sent, write_failed, not_connected, new_network, new_peer,
  peer_count, send_frame, send_to, broadcast, stop,
}
use inso_validator.P2P.Peers.Broadcast.{is_held, AllTake}
use inso_validator.P2P.Peers.Life.{IsLive}
use inso_validator.P2P.Peers.Run.{
  Event, came_in, checked, broadcasted, hung_up, step, run, all_closing, started-IsLive,
}
use inso_validator.P2P.Peers.Unique.{started-broadcast}
use inso_validator.P2P.Peers.Gossip.{broadcast_received}

abbrev encode : WireMessage → Option (List ℕ)
encode w = some (abs w.type ∷ w.payload)

abbrev decode : List ℕ → Option Message
decode [] = none
decode (b ∷ bs) = some (record { type = msg_new_block; from = "peer"; payload = bs })

-- Connection 2 takes three bytes only.
abbrev room : ℕ → ℕ
room c = if c == 2 then 3 else 1000

abbrev start : Network
start = new_network (pos 30303) []

local_name : start.local_id ≡ "validator-30303"
unfolding new_network decimal numeral_text digit_text
local_name = refl

-- Two peers, on the connections 1 and 2, to which nothing was written.
abbrev two : Network
two = record start {
  peers = ("a", new_peer "a" "10.0.0.1" 1) ∷ ("b", new_peer "b" "10.0.0.2" 2) ∷ [];
}

two_counted : peer_count two ≡ 2
unfolding peer_count count_active new_peer
two_counted = refl

-- Stopping closes the connections, and the peers still count.
stopped_counted : peer_count (stop two) ≡ 2
unfolding peer_count count_active new_peer stop
stopped_counted = refl

nobody : (send_to encode room two "c" msg_slash_report []).1 ≡ not_connected
unfolding send_to
nobody = refl

second_fails : (broadcast encode room two msg_slash_report (7 ∷ [])).1 ≡ write_failed 2
unfolding broadcast to_wire send_all send_frame new_peer reachable write_frame be_bytes new_network
second_fails = refl

broadcast_received_example :
    read_loop decode 2
      ((broadcast encode room two msg_slash_report (7 ∷ [])).0.sockets 1).written
      []
    ≡ closed (decoded decode ((5 ∷ 7 ∷ []) ∷ []))
unfolding to_wire type_number new_peer reachable new_network write_frame be_bytes max_message
    capacity
broadcast_received_example =
    broadcast_received decode encode room two msg_slash_report (7 ∷ []) (5 ∷ 7 ∷ []) 1 [] refl
      (refl, (refl, tt)) refl refl (omega arith) (omega arith, tt) (omega arith)

abbrev events : List Event
events =
    came_in "10.0.0.9" 3 room
    ∷ broadcasted msg_new_block (1 ∷ []) room
    ∷ checked (λ c. true)
    ∷ hung_up 3
    ∷ []

-- The peer still counts, and only its connection may be closed.
started-IsLive_example : IsLive (run encode start events) (all_closing (λ c. false) events)
unfolding new_network
started-IsLive_example =
    started-IsLive encode (pos 30303) [] events ((λ i p e. cc), (tt, (tt, (tt, tt))))

-- A second connection, which is not that of the first peer.
abbrev two_came : List Event
two_came = came_in "10.0.0.9" 3 room ∷ came_in "10.0.0.8" 2 room ∷ []

abbrev with_two : Network
with_two = run encode start two_came

started-broadcast_example :
    let r = broadcast encode room with_two msg_slash_report (7 ∷ []) in
    ((c : ℕ)
      → r.0.sockets c ≡ (
          if is_held c with_two.peers
          then (send_frame (room c) (with_two.sockets c) (5 ∷ 7 ∷ [])).0
          else with_two.sockets c))
    × ((r.1 ≡ sent) ↔ AllTake room (5 ∷ 7 ∷ []) with_two.sockets with_two.peers)
    × (r.0.peers ≡ with_two.peers)
unfolding to_wire type_number new_network step handle_inbound announce connect send_conn new_peer
    run
started-broadcast_example =
    started-broadcast encode room (pos 30303) [] two_came
      ((λ i p e. cc), ((λ i p e. ground arith), tt)) msg_slash_report (7 ∷ []) (5 ∷ 7 ∷ []) refl
