-- ===== src/P2P/Tests.antt =====
-- Frames and the loop that reads them, on concrete inputs.
use inso_validator.Prelude.{
  ℕ, ◌≡◌, refl, false, ◌==◌, List, [], ◌∷◌, ◌++◌, Option, none, some, arith, ltb, if◌then◌else◌,
}
use inso_validator.P2P.Dial.{connected, attempts, dial_peer, Ends, dial_peer-Ends}
use inso_validator.P2P.{Message, msg_new_block}
use inso_validator.P2P.Frames.{
  frame, too_large, max_message, write_frame, read_frame, read_frame-write_frame,
}
use inso_validator.P2P.Channel.{capacity, closed, read_loop, wire, decoded, read_loop-wire}

-- The empty message does not decode.
abbrev decode : List ℕ → Option Message
decode [] = none
decode (b ∷ bs) = some (record { type = msg_new_block; from = "peer"; payload = bs })

read_frame-write_frame_example :
    read_frame (write_frame (7 ∷ 8 ∷ []) ++ (9 ∷ []))
    ≡ (if ltb max_message 2 then too_large 2 else frame (7 ∷ 8 ∷ []) (9 ∷ []))
read_frame-write_frame_example = read_frame-write_frame (7 ∷ 8 ∷ []) (9 ∷ []) (omega arith)

read_loop-wire_example :
    read_loop decode 4 (wire decode ((1 ∷ 2 ∷ []) ∷ [] ∷ (3 ∷ []) ∷ [])) []
    ≡ closed ([] ++ decoded decode ((1 ∷ 2 ∷ []) ∷ [] ∷ (3 ∷ []) ∷ []))
unfolding max_message capacity
read_loop-wire_example =
    read_loop-wire decode ((1 ∷ 2 ∷ []) ∷ [] ∷ (3 ∷ []) ∷ []) []
      (omega arith, (omega arith, (omega arith, tt))) (omega arith)

-- The third attempt gets the connection 8.
abbrev third : ℕ → Option ℕ
third n = if n == 2 then some 8 else none

dial_third : dial_peer (λ n. false) third ≡ connected 8 2 3
unfolding dial_peer attempts
dial_third = refl

dial_peer-Ends_example : Ends (λ n. false) third (dial_peer (λ n. false) third)
dial_peer-Ends_example = dial_peer-Ends (λ n. false) third
