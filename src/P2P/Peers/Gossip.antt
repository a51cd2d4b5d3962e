-- ===== src/P2P/Peers/Gossip.antt =====
-- A broadcast and the read loop at the other end of a connection.
use inso_validator.Prelude.{
  ℕ, zero, suc, ◌+◌, ◌≤◌, ◌≡◌, refl, sym, ap, ◌∙◌, true, false, List, [], ◌∷◌, ◌++◌, Option, some,
  arith, length, length-append, take, All, append_nil, append_assoc,
}
use inso_validator.P2P.{MessageType, Message}
use inso_validator.P2P.Frames.{write_frame}
use inso_validator.P2P.Channel.{capacity, closed, read_loop, wire, decoded, Fits, read_loop-wire}
use inso_validator.P2P.Peers.{Network, WireMessage, to_wire, send_frame, broadcast}
use inso_validator.P2P.Peers.Broadcast.{is_held, HasOwnConns, broadcast_lem}

take_all : (n : ℕ) (xs : List ℕ) → length xs ≤ n → take n xs ≡ xs
take_all zero [] h = refl
take_all zero (x ∷ xs) h = absurd (omega arith)
take_all (suc n) [] h = refl
take_all (suc n) (x ∷ xs) h = ap (λ l. x ∷ l) (take_all n xs (omega arith))

-- A connection that takes it all has the frame at its end.
send_frame_whole :
    (room : ℕ) (written message : List ℕ)
    → length (write_frame message) ≤ room
    → (send_frame room (record { is_closed = false; written = written }) message).0.written
      ≡ written ++ write_frame message
unfolding send_frame
send_frame_whole room written message fits =
    ap (λ l. written ++ l) (take_all room (write_frame message) fits)

module _ (decode : List ℕ → Option Message) where
  wire_snoc :
      (messages : List (List ℕ)) (message : List ℕ)
      → wire decode (messages ++ (message ∷ [])) ≡ wire decode messages ++ write_frame message
  wire_snoc [] message = append_nil (write_frame message)
  wire_snoc (m ∷ messages) message =
      ap (λ l. write_frame m ++ l) (wire_snoc messages message)
      ∙ sym (append_assoc (write_frame m) (wire decode messages) (write_frame message))

  -- A peer whose open connection has carried some messages, each of at most 10 MiB, and takes the whole
  -- frame of one more that is broadcast: when it reads to the end of the connection, with a channel
  -- that is empty before and has room for all, its channel holds those messages that decode, in the
  -- order in which they were sent, the broadcast one last. The active peers of the sender have
  -- connections of their own, as they have in every run.
  pub broadcast_received :
      (encode : WireMessage → Option (List ℕ)) (room : ℕ → ℕ) (n : Network) (type : MessageType)
      (payload message : List ℕ) (c : ℕ) (messages : List (List ℕ))
      → to_wire encode room n type payload ≡ some message
      → HasOwnConns n.peers
      → is_held c n.peers ≡ true
      → n.sockets c ≡ record { is_closed = false; written = wire decode messages }
      → length (write_frame message) ≤ room c
      → All (Fits decode) (messages ++ (message ∷ []))
      → length messages + 1 ≤ capacity
      → read_loop decode
          (length messages + 2)
          ((broadcast encode room n type payload).0.sockets c).written
          []
        ≡ closed (decoded decode (messages ++ (message ∷ [])))
  broadcast_received encode room n type payload message c messages encoded own held before takes
        fits space =
      let (reached, _, _) = broadcast_lem encode room n type payload message encoded own in
      let written : ((broadcast encode room n type payload).0.sockets c).written
          ≡ wire decode (messages ++ (message ∷ [])) =
        ap (λ s. s.written) (rw held at (reached c))
        ∙ ap (λ s. (send_frame (room c) s message).0.written) before
        ∙ send_frame_whole (room c) (wire decode messages) message takes
        ∙ sym (wire_snoc messages message) in
      let many : length (messages ++ (message ∷ [])) ≡ length messages + 1 =
        omega (arith, length-append messages (message ∷ [])) in
      let fuel : length messages + 2 ≡ suc (length (messages ++ (message ∷ []))) = omega arith in
      ap (λ f. read_loop decode f ((broadcast encode room n type payload).0.sockets c).written [])
        fuel
      ∙ ap (λ w. read_loop decode (suc (length (messages ++ (message ∷ [])))) w []) written
      ∙ read_loop-wire decode (messages ++ (message ∷ [])) [] fits (omega arith)
