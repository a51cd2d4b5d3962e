-- ===== src/Rpc/Effects.antt =====
-- What a request changes in the node.
use inso_validator.Prelude.{
  ℕ, ◌≡◌, ◌⊎◌, refl, sym, ap, subst, ◌∙◌, true, false, List, Option, none, some, take, ◌^◌, Bool,
  Option-cases, inl, inr, arith,
}
use inso_validator.External.{Hashing}
use inso_validator.Sync.{L2Block, get_block}
use inso_validator.Verification as Verification
use inso_validator.Verification.{verify_block}
use inso_validator.Rpc.{
  Server, Method, verify_a_block, validator_status, get_validators, get_peers, get_active_stakes,
  lane_verification, receipt_verification, adaptive_verification, reputation_scores, one_reputation,
  sync_status, method_of, Request, Response, World, Answer, gives, refuses, verdict, encoded,
  result,
}
use inso_validator.Rpc.Params.{RawParams, Parsed, ok, err, parse_uint64_param}
use inso_validator.Rpc.Handler.{
  Named, block, unnamed, named_block, answer, answer_verify, count_request, respond, handle_request,
  handle_body, handle,
}

module _ (h : Hashing) (w : World) {I : Type 0} (decode : List ℕ → Option (Request I)) where
  -- The request asks for the verification of a block that the node has.
  pub record Verifies (s : Server) (is_post : Bool) (body : Option (List ℕ)) : Type 0 where
    pub bytes : List ℕ
    pub req : Request I
    pub num : ℕ
    pub b : L2Block
    pub posted : is_post ≡ true
    pub read : body ≡ some bytes
    pub decoded : decode (take (2 ^ 20) bytes) ≡ some req
    pub asked : method_of req.method ≡ some verify_a_block
    pub parsed : parse_uint64_param req.params 0 ≡ ok num
    pub stored : get_block s.sync num ≡ some b

  -- The handler leaves the node as it is, or it makes the move of `VerifyBlock` and answers with it.
  abbrev pub Effect : Server → Bool → Option (List ℕ) → Server × Response I → Type 0
  Effect s is_post body (s', r) =
      (s' ≡ count_request s)
      ⊎ ((v : Verifies s is_post body) × (s'
            ≡ record (count_request s) { verification = (verify_block h s.verification v.b).0 })
          × (r ≡ result v.req.id (some (verdict (verify_block h s.verification v.b).1))))

-- Counting a request leaves the engines alone.
pub count_request_lem :
    (s : Server)
    → ((count_request s).sync ≡ s.sync)
      × ((count_request s).verification ≡ s.verification)
      × ((count_request s).consensus ≡ s.consensus)
      × ((count_request s).reputation ≡ s.reputation)
unfolding count_request
count_request_lem s = elim (Option-cases s.metrics) [
  | inl off ↦ rw (off, count_request) (refl, refl, refl, refl)
  | inr (m, on) ↦ rw (on, count_request) (refl, refl, refl, refl)
]

-- A block that was found.
record Found (s : Server) (params : RawParams) (b : L2Block) : Type 0 where
  num : ℕ
  parsed : parse_uint64_param params 0 ≡ ok num
  stored : get_block s.sync num ≡ some b

named_block-Found :
    (s : Server) (params : RawParams) (b : L2Block)
    → named_block s params ≡ block b
    → Found s params b
unfolding named_block
named_block-Found s params b e = by_parse (parse_uint64_param params 0) refl
  where
    by_parse : (p : Parsed ℕ) → parse_uint64_param params 0 ≡ p → Found s params b
    by_parse (err m) q = absurd (cc (rw (q, named_block) at e))
    by_parse (ok n) q = elim (Option-cases (get_block s.sync n)) [
      | inl missing ↦ absurd (cc (rw (q, named_block, missing) at e))
      | inr (b', there) ↦
          let same : b' ≡ b = cc (rw (q, named_block, there) at e) in
          record { num = n; parsed = q; stored = there ∙ ap some same }
    ]

abbrev with_verifier : Server → Verification.Engine → Server
with_verifier s v = record s { verification = v }

module _ (h : Hashing) (w : World) where
  record Moved (s : Server) (m : Method) (params : RawParams) (p : Server × Answer) : Type 0 where
    b : L2Block
    asked : m ≡ verify_a_block
    found : Found s params b
    state : p.0 ≡ with_verifier s (verify_block h s.verification b).0
    reply : p.1 ≡ gives (verdict (verify_block h s.verification b).1)

  answer_verify-Moved :
      (s : Server) (params : RawParams) (n : Named)
      → named_block s params ≡ n
      → ((answer_verify h w s n).0 ≡ s) ⊎ Moved s verify_a_block params (answer_verify h w s n)
  unfolding answer_verify
  answer_verify-Moved s params (unnamed message) e = inl refl
  answer_verify-Moved s params (block b) e = inr record {
    b = b;
    asked = refl;
    found = named_block-Found s params b e;
    state = refl;
    reply = refl;
  }

  -- Of the cases of the switch only one changes anything.
  answer-Moved :
      (s : Server) (m : Method) (params : RawParams)
      → ((answer h w s m params).0 ≡ s) ⊎ Moved s m params (answer h w s m params)
  unfolding answer
  answer-Moved s verify_a_block params = answer_verify-Moved s params (named_block s params) refl
  answer-Moved s validator_status params = inl refl
  answer-Moved s get_validators params = inl refl
  answer-Moved s get_peers params = inl refl
  answer-Moved s get_active_stakes params = inl refl
  answer-Moved s lane_verification params = inl refl
  answer-Moved s receipt_verification params = inl refl
  answer-Moved s adaptive_verification params = inl refl
  answer-Moved s reputation_scores params = inl refl
  answer-Moved s one_reputation params = inl refl
  answer-Moved s sync_status params = inl refl

  respond-state : {I : Type 0} (id : I) (p : Server × Answer) → (respond id p).0 ≡ p.0
  unfolding respond
  respond-state id (s, gives reply) = refl
  respond-state id (s, refuses c message) = refl

  respond-reply :
      {I : Type 0} (id : I) (p : Server × Answer) (r : Verification.Result)
      → p.1 ≡ gives (verdict r)
      → (respond id p).1 ≡ result id (some (verdict r))
  unfolding respond encoded
  respond-reply id (s, gives reply) r e = ground arith
  respond-reply id (s, refuses c message) r e = absurd (cc)

module _ (h : Hashing) (w : World) {I : Type 0} (decode : List ℕ → Option (Request I)) where
  request-Effect :
      (s : Server) (bytes : List ℕ) (req : Request I)
      → decode (take (2 ^ 20) bytes) ≡ some req
      → Effect h w decode s true (some bytes) (handle_request h w decode (count_request s) req)
  unfolding handle_request
  request-Effect s bytes req decoded = elim (Option-cases (method_of req.method)) [
    | inl unknown ↦ rw (unknown, handle_request) (inl refl)
    | inr (m, known) ↦
        rw (known, handle_request)
          (elim (answer-Moved h w (count_request s) m req.params) [
            | inl same ↦
                inl (respond-state h w req.id (answer h w (count_request s) m req.params) ∙ same)
            | inr moved ↦ inr (
              record {
                bytes = bytes;
                req = req;
                num = moved.found.num;
                b = moved.b;
                posted = refl;
                read = refl;
                decoded = decoded;
                asked = known ∙ ap some moved.asked;
                parsed = moved.found.parsed;
                stored =
                    ap (λ e. get_block e moved.found.num) (sym (count_request_lem s).0)
                    ∙ moved.found.stored;
              },
              respond-state h w req.id (answer h w (count_request s) m req.params)
                  ∙ moved.state
                  ∙ ap (λ v. with_verifier (count_request s) (verify_block h v moved.b).0)
                      (count_request_lem s).1,
              respond-reply h w req.id (answer h w (count_request s) m req.params)
                    (verify_block h (count_request s).verification moved.b).1 moved.reply
                  ∙ ap (λ v. result req.id (some (verdict (verify_block h v moved.b).1)))
                      (count_request_lem s).1,
            )
          ])
  ]

  -- A request, whatever it is, leaves the node as it is but for the count of requests, or else it asks
  -- by POST for the verification of a block that the node has; then the verification engine makes the
  -- move of VerifyBlock on that block, the rest stays, and the response carries the id of the request
  -- and the result of VerifyBlock.
  pub handle-Effect :
      (s : Server) (is_post : Bool) (body : Option (List ℕ))
      → Effect h w decode s is_post body (handle h w decode s is_post body)
  unfolding handle handle_body
  handle-Effect s false body = inl refl
  handle-Effect s true none = inl refl
  handle-Effect s true (some bytes) = elim (Option-cases (decode (take (2 ^ 20) bytes))) [
    | inl bad ↦ rw (bad, handle_body) (inl refl)
    | inr (req, decoded) ↦ by_request req decoded
  ]
    where
      by_request :
          (req : Request I)
          → decode (take (2 ^ 20) bytes) ≡ some req
          → Effect h w decode s true (some bytes) (handle h w decode s true (some bytes))
      by_request req decoded =
          let turn : handle h w decode s true (some bytes)
              ≡ handle_request h w decode (count_request s) req =
            rw (decoded, handle_body) refl in
          subst (Effect h w decode s true (some bytes)) (sym turn)
            (request-Effect s bytes req decoded)
