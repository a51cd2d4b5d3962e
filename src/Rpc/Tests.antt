-- ===== src/Rpc/Tests.antt =====
-- The RPC server on concrete inputs.
use text.Mathlib.TextEquality.{eq_iff}
use inso_validator.Prelude.{
  ℕ, ◌%◌, ◌^◌, ◌≡◌, refl, true, false, List, [], ◌∷◌, Option, none, some, ltb, if◌then◌else◌, arith,
  inr,
}
use inso_validator.Prelude.Int.{pos}
use inso_validator.Bytes.{be_bytes, big_bytes, min_bytes, written}
use inso_validator.External.Toys.{toy_hashing}
use inso_validator.P2P.Peers.{new_network}
use inso_validator.Staking as Staking
use inso_validator.Sync.{L2Block, get_block}
use inso_validator.Verification.{verify_block, compute_expected_state_root, root_preimage}
use inso_validator.Consensus as Consensus
use inso_validator.Rpc.{Server, new_server, method_of, Request, error, World, method_not_found}
use inso_validator.Rpc.Params.{
  natural, quoted, array, ok, err, parse_uint64_param, at_index, param_at, elements, uint64_value,
}
use inso_validator.Rpc.Params.Hex.{parse_uint64_param-spelled}
use inso_validator.Rpc.Handler.{handle, handle_body, handle_request, count_request}
use inso_validator.Rpc.Effects.{Effect, handle-Effect}
use inso_validator.Rpc.Errors.{Accounts, handle-Accounts}
use inso_validator.Rpc.Reverify.{reverify_rejects}

parse_uint64_param-spelled_example :
    (parse_uint64_param (array (quoted "0x-0aF" ∷ [])) 0 ≡ ok (175 % 2 ^ 64))
    × (parse_uint64_param (array (natural 175 ∷ [])) 0
        ≡ (if ltb 175 (2 ^ 64) then ok 175 else err (at_index "invalid uint64 at index " 0)))
parse_uint64_param-spelled_example =
    parse_uint64_param-spelled "0x-0aF" [] (45 ∷ []) 48 (97 ∷ 70 ∷ []) refl (inr refl)
      (ground arith, (ground arith, (ground arith, tt)))

abbrev stored : L2Block
stored = record {
  number = 1;
  hash = "0xab";
  parent_hash = "0xaa";
  timestamp = 10;
  state_root = "";
  gas_used = 0;
  gas_limit = 30_000_000;
  tx_count = pos 1;
  sequencer = "seq";
}

abbrev next_block : L2Block
next_block = record stored { number = 2; state_root = "0x00" }

abbrev server : Server
server =
    new_server (Consensus.new_engine true 1 none 1)
      (record { latest_block = 1; blocks = (1, stored) ∷ []; metrics = none })
      (record { state_root = 82 }) (Staking.new_manager 1) (new_network (pos 30303) [])

abbrev world : World
world = record { remote = none; lane_stats = λ url. none; receipts = λ url hash. none }

-- A body of one byte asks for the block of that number, an empty one for an unknown method.
abbrev decode : List ℕ → Option (Request ℕ)
decode [] = some (record { method = "inso_unknown"; params = array []; id = 7 })
decode (n ∷ bs) =
    some (record { method = "inso_verifyBlock"; params = array (natural n ∷ []); id = 7 })

handle-Effect_example :
    Effect toy_hashing world decode server true
      (some (1 ∷ []))
      (handle toy_hashing world decode server true (some (1 ∷ [])))
handle-Effect_example = handle-Effect toy_hashing world decode server true (some (1 ∷ []))

handle-Accounts_example :
    Accounts toy_hashing world decode server true
      (some [])
      (handle toy_hashing world decode server true (some [])).1
handle-Accounts_example = handle-Accounts toy_hashing world decode server true (some [])

unknown_refused :
    (handle toy_hashing world decode server true (some [])).1
    ≡ error (some 7) method_not_found "method not found"
unfolding handle handle_body handle_request method_of count_request new_server
unknown_refused = refl

reverify_rejects_example :
    ((verify_block toy_hashing server.verification next_block).1.valid ≡ true)
    × ((verify_block toy_hashing
          (handle toy_hashing world decode server true (some (1 ∷ []))).0.verification
          next_block).1.valid
        ≡ false)
unfolding new_server compute_expected_state_root root_preimage written be_bytes big_bytes min_bytes
    method_of parse_uint64_param param_at elements uint64_value get_block
reverify_rejects_example =
    reverify_rejects toy_hashing world decode server (1 ∷ [])
      (record { method = "inso_verifyBlock"; params = array (natural 1 ∷ []); id = 7 }) 1 stored
      next_block refl refl refl refl (omega arith) refl (omega arith)
      (ground (arith, eq_iff "0x00" "")) refl (ground (arith, eq_iff "0x00" "0x64"))
