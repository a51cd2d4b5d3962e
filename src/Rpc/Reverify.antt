-- ===== src/Rpc/Reverify.antt =====
-- A request that verifies a block again.
use text.Mathlib.TextEquality.{eq_iff}
use inso_validator.Prelude.{
  ℕ, ◌≡◌, ◌≢◌, ◌↔◌, refl, ap, ◌∙◌, true, false, List, Option, some, take, ◌^◌, arith, Bool-cases,
  inl, inr,
}
use inso_validator.External.{Hashing}
use inso_validator.Sync.{L2Block, get_block}
use inso_validator.Verification as Verification
use inso_validator.Verification.{
  verify_block, judge, settle, compute_expected_state_root, is_mismatch,
}
use inso_validator.Rpc.{Server, verify_a_block, method_of, Request, World}
use inso_validator.Rpc.Params.{RawParams, ok, parse_uint64_param}
use inso_validator.Rpc.Handler.{
  named_block, block, answer, answer_verify, count_request, respond, handle_request, handle_body,
  handle,
}
use inso_validator.Rpc.Effects.{count_request_lem}

-- A block that states no root is accepted on any root.
accepts_unstated :
    (h : Hashing) (e : Verification.Engine) (b : L2Block)
    → b.number ≢ 0
    → b.state_root ≡ ""
    → (verify_block h e b).0 ≡ record { state_root = compute_expected_state_root h e b }
unfolding verify_block judge settle is_mismatch
accepts_unstated h e b nz unstated = ground (arith, eq_iff b.state_root "")

-- A block that states a root is accepted just on that root.
states :
    (h : Hashing) (e : Verification.Engine) (b : L2Block)
    → b.number ≢ 0
    → b.state_root ≢ ""
    → ((verify_block h e b).1.valid ≡ true)
      ↔ (b.state_root ≡ h.hash_hex (compute_expected_state_root h e b))
unfolding verify_block judge settle is_mismatch
states h e b nz stated = ground (
  arith,
  eq_iff b.state_root "",
  eq_iff b.state_root (h.hash_hex (compute_expected_state_root h e b)),
)

named :
    (s : Server) (params : RawParams) (num : ℕ) (b : L2Block)
    → parse_uint64_param params 0 ≡ ok num
    → get_block s.sync num ≡ some b
    → named_block s params ≡ block b
unfolding named_block
named s params num b parsed stored = rw (parsed, named_block, stored) refl

module _ (h : Hashing) (w : World) {I : Type 0} (decode : List ℕ → Option (Request I)) where
  -- The verification engine behind a request for a stored block.
  moves :
      (s : Server) (bytes : List ℕ) (req : Request I) (num : ℕ) (b : L2Block)
      → decode (take (2 ^ 20) bytes) ≡ some req
      → method_of req.method ≡ some verify_a_block
      → parse_uint64_param req.params 0 ≡ ok num
      → get_block s.sync num ≡ some b
      → (handle h w decode s true (some bytes)).0.verification ≡ (verify_block h s.verification b).0
  unfolding handle handle_body handle_request answer answer_verify respond
  moves s bytes req num b decoded asked parsed stored =
      let found =
        named (count_request s) req.params num b parsed
          (ap (λ e. get_block e num) (count_request_lem s).0 ∙ stored) in
      ap (λ p. p.0.verification) by_body
      ∙ ap (λ p. p.0.verification) by_method
      ∙ ap (λ n. (respond req.id (answer_verify h w (count_request s) n)).0.verification) found
      ∙ ap (λ v. (verify_block h v b).0) (count_request_lem s).1
    where
      by_body :
          handle h w decode s true (some bytes) ≡ handle_request h w decode (count_request s) req
      by_body = rw (decoded, handle_body) refl

      by_method :
          handle_request h w decode (count_request s) req
          ≡ respond req.id
              (answer_verify h w (count_request s) (named_block (count_request s) req.params))
      by_method = rw (asked, handle_request) refl

  -- One request for the verification of a stored block that states no root makes the node reject a
  -- block that it would have accepted: one that states the root which follows on the node's root
  -- before the request, if that is not the root which follows after the stored block is applied again.
  pub reverify_rejects :
      (s : Server) (bytes : List ℕ) (req : Request I) (num : ℕ) (b next : L2Block)
      → decode (take (2 ^ 20) bytes) ≡ some req
      → method_of req.method ≡ some verify_a_block
      → parse_uint64_param req.params 0 ≡ ok num
      → get_block s.sync num ≡ some b
      → b.number ≢ 0
      → b.state_root ≡ ""
      → next.number ≢ 0
      → next.state_root ≢ ""
      → next.state_root ≡ h.hash_hex (compute_expected_state_root h s.verification next)
      → next.state_root
        ≢ h.hash_hex (
            compute_expected_state_root h
              (record { state_root = compute_expected_state_root h s.verification b })
              next)
      → ((verify_block h s.verification next).1.valid ≡ true)
        × ((verify_block h (handle h w decode s true (some bytes)).0.verification next).1.valid
            ≡ false)
  reverify_rejects s bytes req num b next decoded asked parsed stored nz unstated next_nz stated
        follows differs =
      let after =
        moves s bytes req num b decoded asked parsed stored
        ∙ accepts_unstated h s.verification b nz unstated in
      (
        (states h s.verification next next_nz stated).1 follows,
        ap (λ v. (verify_block h v next).1.valid) after ∙ refused,
      )
    where
      moved : Verification.Engine
      moved = record { state_root = compute_expected_state_root h s.verification b }

      refused : (verify_block h moved next).1.valid ≡ false
      refused = elim (Bool-cases (verify_block h moved next).1.valid) [
        | inl valid ↦ absurd (differs ((states h moved next next_nz stated).0 valid))
        | inr invalid ↦ invalid
      ]
