-- ===== src/Consensus/Signatures.antt =====
-- Signing attestations and checking the signatures.
use inso_validator.Prelude.{
  ℕ, ◌^◌, ◌<◌, ◌≡◌, ◌↔◌, refl, sym, subst, ◌∙◌, true, false, List, [], ◌++◌, Option, none, some,
  if◌then◌else◌, arith, inl, inr, Bool-cases, length, length-append,
}
use inso_validator.Prelude.Dict.{contains}
use inso_validator.Prelude.Word.{IsU64}
use inso_validator.Bytes.{be_bytes, big_bytes, written}
use inso_validator.Bytes.Laws.{
  append-injective, length-be_bytes, be_bytes-injective, big_bytes-injective,
}
use inso_validator.External.{Signing}
use inso_validator.Consensus.{
  Attestation, Engine, zero_power, accepted, unknown_validator, attestation_preimage,
  attestation_hash, sign_attestation, attest_block, verify_attestation,
}

-- The fields of an attestation fit their types.
abbrev pub IsSized : Attestation → Type 0
IsSized att = IsU64 att.block_number × (att.block_hash < 256 ^ 32) × (att.validator < 256 ^ 20)

-- What follows the block's number.
abbrev tail : Attestation → List ℕ
tail att = be_bytes 32 att.block_hash ++ (be_bytes 20 att.validator ++ [])

length-last : (att : Attestation) → length (be_bytes 20 att.validator ++ []) ≡ 20
length-last att =
    length-append (be_bytes 20 att.validator) [] ∙ rw (length-be_bytes 20 att.validator) refl

length-tail : (att : Attestation) → length (tail att) ≡ 52
length-tail att =
    length-append (be_bytes 32 att.block_hash) (be_bytes 20 att.validator ++ [])
    ∙ rw (length-be_bytes 32 att.block_hash, length-last att) refl

-- The bytes that are signed determine the block's number, its hash and the validator: though the
-- number is written without leading zeros, what follows it has a fixed length.
pub attestation_preimage-injective :
    (a b : Attestation)
    → IsSized a
    → IsSized b
    → attestation_preimage a ≡ attestation_preimage b
    → (a.block_number ≡ b.block_number)
      × (a.block_hash ≡ b.block_hash)
      × (a.validator ≡ b.validator)
unfolding attestation_preimage written
attestation_preimage-injective a b (an, ah, av) (bn, bh, bv) e =
    let (number, rest) =
      append-injective (big_bytes a.block_number) (tail a) (big_bytes b.block_number) (tail b)
        (length-tail a ∙ sym (length-tail b)) e in
    let (hash, last) =
      append-injective (be_bytes 32 a.block_hash) (be_bytes 20 a.validator ++ [])
        (be_bytes 32 b.block_hash) (be_bytes 20 b.validator ++ [])
        (length-last a ∙ sym (length-last b)) rest in
    let (validator, end) =
      append-injective (be_bytes 20 a.validator) [] (be_bytes 20 b.validator) [] refl last in
    (
      big_bytes-injective a.block_number b.block_number an bn number,
      be_bytes-injective 32 a.block_hash b.block_hash ah bh hash,
      be_bytes-injective 20 a.validator b.validator av bv validator,
    )

module _ (c : Signing) where
  -- A recovered key belongs to an address.
  abbrev pub Belongs : Option ℕ → ℕ → Type 0
  Belongs none addr = ⊥
  Belongs (some key) addr = c.pubkey_to_address key ≡ addr

  -- The signature is one of the claimed validator.
  abbrev pub IsSigned : Attestation → Type 0
  IsSigned att =
      (length att.signature ≡ 65)
      × Belongs (c.sig_to_pub (attestation_hash c att) att.signature) att.validator

  -- An attestation is accepted just if its signature has 65 bytes and yields the claimed validator's
  -- key, and the validator is registered; it is refused as unknown just if only the last fails.
  pub verify_attestation_iff :
      (e : Engine) (att : Attestation)
      → ((verify_attestation c e att ≡ accepted)
          ↔ (IsSigned att × (contains att.validator e.validators ≡ true)))
        × ((verify_attestation c e att ≡ unknown_validator)
            ↔ (IsSigned att × (contains att.validator e.validators ≡ false)))
  unfolding verify_attestation
  verify_attestation_iff e att = ground arith

  -- What the signature scheme promises of a key and its address: signatures have 65 bytes and the
  -- key is recovered from them.
  abbrev pub Recovers : ℕ → ℕ → Type 0
  Recovers key addr =
      (hash : ℕ) (sig : List ℕ)
      → c.sign hash key ≡ some sig
      → (length sig ≡ 65) × Belongs (c.sig_to_pub hash sig) addr

  signed_with :
      (e : Engine) (att : Attestation) (sig : List ℕ)
      → c.sign (attestation_hash c att) e.private_key ≡ some sig
      → sign_attestation c e att ≡ sig
  unfolding sign_attestation
  signed_with e att sig ok = rw (ok, sign_attestation) refl

  attest-IsSigned :
      (e : Engine) (block_num block_hash now : ℕ)
      → Recovers e.private_key e.local_addr
      → ((hash : ℕ) → (sig : List ℕ) × (c.sign hash e.private_key ≡ some sig))
      → IsSigned (attest_block c e block_num block_hash now).1
        × ((attest_block c e block_num block_hash now).1.validator ≡ e.local_addr)
  unfolding attest_block sign_attestation attestation_hash attestation_preimage
  attest-IsSigned e block_num block_hash now recovers signs =
      let unsigned : Attestation = record {
        block_number = block_num;
        block_hash = block_hash;
        validator = e.local_addr;
        taste_score = zero_power;
        signature = [];
        timestamp = now;
      } in
      let (sig, ok) = signs (attestation_hash c unsigned) in
      (
        subst
            (λ s.
              (length s ≡ 65) × Belongs (c.sig_to_pub (attestation_hash c unsigned) s) e.local_addr)
            (sym (signed_with e unsigned sig ok)) (recovers (attestation_hash c unsigned) sig ok),
        refl,
      )

  decide :
      (other : Engine) (att : Attestation) (addr : ℕ)
      → IsSigned att
      → att.validator ≡ addr
      → verify_attestation c other att
        ≡ (if contains addr other.validators then accepted else unknown_validator)
  decide other att addr signed same = elim (Bool-cases (contains att.validator other.validators)) [
    | inl known ↦
        (verify_attestation_iff other att).0.1 (signed, known)
        ∙ subst
            (λ a. accepted ≡ (if contains a other.validators then accepted else unknown_validator))
            same (rw known refl)
    | inr missing ↦
        (verify_attestation_iff other att).1.1 (signed, missing)
        ∙ subst
            (λ a.
              unknown_validator
              ≡ (if contains a other.validators then accepted else unknown_validator))
            same (rw missing refl)
  ]

  -- The attestation that an engine makes with its own key, if signing succeeds, is accepted by every
  -- engine at which its address is registered, and refused as unknown by every other.
  pub attest-verify :
      (e other : Engine) (block_num block_hash now : ℕ)
      → Recovers e.private_key e.local_addr
      → ((hash : ℕ) → (sig : List ℕ) × (c.sign hash e.private_key ≡ some sig))
      → verify_attestation c other (attest_block c e block_num block_hash now).1
        ≡ (if contains e.local_addr other.validators then accepted else unknown_validator)
  attest-verify e other block_num block_hash now recovers signs =
      let (signed, same) = attest-IsSigned e block_num block_hash now recovers signs in
      decide other (attest_block c e block_num block_hash now).1 e.local_addr signed same
