-- ===== src/Rpc/Errors.antt =====
-- Which response a request gets: the codes of the errors, and whose id it carries.
use Prim.Native.String.{String}
use inso_validator.Prelude.{
  ℕ, ◌≡◌, ◌≢◌, ◌⊎◌, refl, sym, subst, true, false, List, Option, none, some, take, ◌^◌, Bool,
  Option-cases, inl, inr,
}
use inso_validator.Prelude.Int.{ℤ}
use inso_validator.External.{Hashing}
use inso_validator.Reputation as Reputation
use inso_validator.Reputation.{get_reputation}
use inso_validator.Rpc.{
  Server, Method, verify_a_block, validator_status, get_validators, get_peers, get_active_stakes,
  lane_verification, receipt_verification, adaptive_verification, reputation_scores, one_reputation,
  sync_status, method_of, Request, Response, method_not_allowed, error, result, World, Answer,
  gives, refuses, parse_error, method_not_found, invalid_params, internal_error,
}
use inso_validator.Rpc.Effects.{count_request_lem}
use inso_validator.Rpc.Params.{RawParams, Parsed, ok, err, parse_string_param}
use inso_validator.Rpc.Handler.{
  Named, block, unnamed, named_block, answer, answer_verify, answer_receipt, answer_adaptive,
  answer_reputations, answer_reputation, count_request, respond, handle_request, handle_body,
  handle,
}

-- The methods that take a parameter, and those that need the reputation manager.
abbrev pub takes_param : Method → Bool
takes_param verify_a_block = true
takes_param receipt_verification = true
takes_param adaptive_verification = true
takes_param one_reputation = true
takes_param _ = false

abbrev pub needs_reputation : Method → Bool
needs_reputation reputation_scores = true
needs_reputation one_reputation = true
needs_reputation _ = false

-- When a method refuses, and with which codes: invalid parameters by one that takes a parameter, an
-- internal error by one that needs the reputation manager, which is missing.
abbrev Refusal : Option Reputation.Manager → Method → Answer → Type 0
Refusal reputation m (gives reply) = (needs_reputation m ≡ false) ⊎ (reputation ≢ none)
Refusal reputation m (refuses c message) =
    ((c ≡ invalid_params) × (takes_param m ≡ true))
    ⊎ ((c ≡ internal_error) × (needs_reputation m ≡ true) × (reputation ≡ none))

module _ (h : Hashing) (w : World) where
  verify-Refusal :
      (s : Server) (n : Named) → Refusal s.reputation verify_a_block (answer_verify h w s n).1
  unfolding answer_verify
  verify-Refusal s (unnamed message) = inl (refl, refl)
  verify-Refusal s (block b) = inl refl

  adaptive-Refusal :
      (s : Server) (n : Named) → Refusal s.reputation adaptive_verification (answer_adaptive h w n)
  unfolding answer_adaptive
  adaptive-Refusal s (unnamed message) = inl (refl, refl)
  adaptive-Refusal s (block b) = inl refl

  receipt-Refusal :
      (s : Server) (p : Parsed String)
      → Refusal s.reputation receipt_verification (answer_receipt h w s p)
  unfolding answer_receipt
  receipt-Refusal s (err e) = inl (refl, refl)
  receipt-Refusal s (ok hash) = inl refl

  scores-Refusal :
      (r : Option Reputation.Manager) → Refusal r reputation_scores (answer_reputations h w r)
  unfolding answer_reputations
  scores-Refusal none = inr (refl, refl, refl)
  scores-Refusal (some m) = inr (λ e. cc)

  reputation-Refusal :
      (r : Option Reputation.Manager) (p : Parsed String)
      → Refusal r one_reputation (answer_reputation h w r p)
  unfolding answer_reputation
  reputation-Refusal none p = inr (refl, refl, refl)
  reputation-Refusal (some m) (err e) = inl (refl, refl)
  reputation-Refusal (some m) (ok addr) =
      elim (Option-cases (get_reputation m (h.hex_to_address addr))) [
        | inl unknown ↦ rw (unknown, answer_reputation) (inl (refl, refl))
        | inr (r, known) ↦ rw (known, answer_reputation) (inr (λ e. cc))
      ]

  answer-Refusal :
      (s : Server) (m : Method) (params : RawParams)
      → Refusal s.reputation m (answer h w s m params).1
  unfolding answer
  answer-Refusal s verify_a_block params = verify-Refusal s (named_block s params)
  answer-Refusal s validator_status params = inl refl
  answer-Refusal s get_validators params = inl refl
  answer-Refusal s get_peers params = inl refl
  answer-Refusal s get_active_stakes params = inl refl
  answer-Refusal s lane_verification params = inl refl
  answer-Refusal s receipt_verification params = receipt-Refusal s (parse_string_param params 0)
  answer-Refusal s adaptive_verification params = adaptive-Refusal s (named_block s params)
  answer-Refusal s reputation_scores params = scores-Refusal s.reputation
  answer-Refusal s one_reputation params =
      reputation-Refusal s.reputation (parse_string_param params 0)
  answer-Refusal s sync_status params = inl refl

module _ (h : Hashing) (w : World) {I : Type 0} (decode : List ℕ → Option (Request I)) where
  -- The first MiB of the body is this request.
  abbrev pub Carries : Option (List ℕ) → Request I → Type 0
  Carries none req = ⊥
  Carries (some bytes) req = decode (take (2 ^ 20) bytes) ≡ some req

  abbrev pub IsUnreadable : Option (List ℕ) → Type 0
  IsUnreadable none = Unit
  IsUnreadable (some bytes) = decode (take (2 ^ 20) bytes) ≡ none

  -- What a refusal with a code says of the method.
  abbrev pub Explains : Server → ℤ → Option Method → Type 0
  Explains s c none = c ≡ method_not_found
  Explains s c (some m) =
      ((c ≡ invalid_params) × (takes_param m ≡ true))
      ⊎ ((c ≡ internal_error) × (needs_reputation m ≡ true) × (s.reputation ≡ none))

  abbrev pub IsServed : Server → Option Method → Type 0
  IsServed s none = ⊥
  IsServed s (some m) = (needs_reputation m ≡ false) ⊎ (s.reputation ≢ none)

  -- Why a response was given.
  abbrev pub Accounts : Server → Bool → Option (List ℕ) → Response I → Type 0
  Accounts s is_post body method_not_allowed = is_post ≡ false
  Accounts s is_post body (error none c message) =
      (is_post ≡ true) × (c ≡ parse_error) × IsUnreadable body
  Accounts s is_post body (error (some id) c message) =
      (req : Request I) × (is_post ≡ true)
      × Carries body req
      × (id ≡ req.id)
      × Explains s c (method_of req.method)
  Accounts s is_post body (result id reply) =
      (req : Request I) × (is_post ≡ true)
      × Carries body req
      × (id ≡ req.id)
      × IsServed s (method_of req.method)

  respond-Accounts :
      (s : Server) (bytes : List ℕ) (req : Request I) (m : Method) (p : Server × Answer)
      → decode (take (2 ^ 20) bytes) ≡ some req
      → method_of req.method ≡ some m
      → Refusal s.reputation m p.1
      → Accounts s true (some bytes) (respond req.id p).1
  unfolding respond
  respond-Accounts s bytes req m (s', gives reply) decoded known why =
      (req, refl, decoded, refl, subst (IsServed s) (sym known) why)
  respond-Accounts s bytes req m (s', refuses c message) decoded known why =
      (req, refl, decoded, refl, subst (Explains s c) (sym known) why)

  request-Accounts :
      (s : Server) (bytes : List ℕ) (req : Request I)
      → decode (take (2 ^ 20) bytes) ≡ some req
      → Accounts s true (some bytes) (handle_request h w decode (count_request s) req).1
  unfolding handle_request
  request-Accounts s bytes req decoded = elim (Option-cases (method_of req.method)) [
    | inl unknown ↦
        let turn : (handle_request h w decode (count_request s) req).1
            ≡ error (some req.id) method_not_found "method not found" =
          rw (unknown, handle_request) refl in
        subst (Accounts s true (some bytes)) (sym turn)
          (req, refl, decoded, refl, subst (Explains s method_not_found) (sym unknown) refl)
    | inr (m, known) ↦
        let a = answer h w (count_request s) m req.params in
        let turn : (handle_request h w decode (count_request s) req).1 ≡ (respond req.id a).1 =
          rw (known, handle_request) refl in
        subst (Accounts s true (some bytes)) (sym turn) (
          respond-Accounts s bytes req m a decoded known (
            subst (λ r. Refusal r m a.1) (count_request_lem s).3
              (answer-Refusal h w (count_request s) m req.params)))
  ]

  -- A request is refused with 405 if it is no POST; with -32700 and no id if its body cannot be read or
  -- decoded; and otherwise the response carries its id: -32601 if the method is unknown, -32602 only
  -- from a method that takes a parameter, -32603 only if the method needs the reputation manager and
  -- there is none, and a result only if that is not so.
  pub handle-Accounts :
      (s : Server) (is_post : Bool) (body : Option (List ℕ))
      → Accounts s is_post body (handle h w decode s is_post body).1
  unfolding handle handle_body
  handle-Accounts s false body = refl
  handle-Accounts s true none = (refl, refl, tt)
  handle-Accounts s true (some bytes) = elim (Option-cases (decode (take (2 ^ 20) bytes))) [
    | inl bad ↦
        let turn : (handle h w decode s true (some bytes)).1
            ≡ error none parse_error "parse error" =
          rw (bad, handle_body) refl in
        subst (Accounts s true (some bytes)) (sym turn) (refl, refl, bad)
    | inr (req, decoded) ↦
        let turn : (handle h w decode s true (some bytes)).1
            ≡ (handle_request h w decode (count_request s) req).1 =
          rw (decoded, handle_body) refl in
        subst (Accounts s true (some bytes)) (sym turn) (request-Accounts s bytes req decoded)
  ]
