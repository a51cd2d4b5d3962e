-- ===== src/P2P/Frames.antt =====
-- internal/p2p/network.go, writeFrame and readFrame: messages with a length in front. A connection is
-- the bytes that are still to be read.
use inso_validator.Prelude.{
  append_assoc, ℕ, zero, suc, ◌*◌, ◌%◌, ◌^◌, ◌≤◌, ◌<◌, ◌≡◌, refl, sym, ap, ◌∙◌, false, List, [],
  ◌∷◌, ◌++◌, ltb, if◌then◌else◌, length, length-append, take, drop, take-append, drop-append, arith,
  Bool-cases, inl, inr,
}
use inso_validator.Bytes.{be_bytes, from_bytes}
use inso_validator.Bytes.Laws.{length-be_bytes, from_bytes-be_bytes}

-- What a read yields: a message and the bytes behind it, or one of the errors, after each of which the
-- connection is closed.
pub data Read : Type 0 where
  frame : List ℕ → List ℕ → Read
  too_large : ℕ → Read
  cut_short : Read

-- 10 MiB
unfoldable pub max_message : ℕ
max_message = 10 * 1024 * 1024

-- The bytes written: the length as a uint32, high byte first, and the data.
unfoldable pub write_frame : List ℕ → List ℕ
write_frame data_bytes = be_bytes 4 (length data_bytes % 2 ^ 32) ++ data_bytes

-- What follows the length.
unfoldable pub read_body : ℕ → List ℕ → Read
read_body size body =
    if ltb max_message size
    then too_large size
    else if ltb (length body) size
    then cut_short
    else frame (take size body) (drop size body)

unfoldable pub read_frame : List ℕ → Read
read_frame stream =
    if ltb (length stream) 4
    then cut_short
    else read_body (from_bytes 0 (take 4 stream)) (drop 4 stream)

take_header : (head rest : List ℕ) → length head ≡ 4 → take 4 (head ++ rest) ≡ head
take_header head rest four = ap (λ n. take n (head ++ rest)) (sym four) ∙ take-append head rest

drop_header : (head rest : List ℕ) → length head ≡ 4 → drop 4 (head ++ rest) ≡ rest
drop_header head rest four = ap (λ n. drop n (head ++ rest)) (sym four) ∙ drop-append head rest

-- The header is read back.
headed :
    (size : ℕ) (rest : List ℕ)
    → size < 2 ^ 32
    → read_frame (be_bytes 4 size ++ rest) ≡ read_body size rest
unfolding read_frame
headed size rest fits =
    let four = length-be_bytes 4 size in
    let enough : ltb (length (be_bytes 4 size ++ rest)) 4 ≡ false =
      ground (arith, length-append (be_bytes 4 size) rest, four) in
    rw
      (
        enough,
        take_header (be_bytes 4 size) rest four,
        drop_header (be_bytes 4 size) rest four,
        from_bytes-be_bytes 4 size (omega arith),
      )
      refl

read-write :
    (message rest : List ℕ)
    → length message < 2 ^ 32
    → read_frame (write_frame message ++ rest) ≡ read_body (length message) (message ++ rest)
unfolding write_frame
read-write message rest fits =
    let size : length message % 2 ^ 32 ≡ length message = omega arith in
    rw size (
      ap read_frame (append_assoc (be_bytes 4 (length message)) message rest)
      ∙ headed (length message) (message ++ rest) fits)

whole :
    (message rest : List ℕ)
    → read_body (length message) (message ++ rest) ≡ (
        if ltb max_message (length message) then too_large (length message) else frame message rest)
unfolding read_body
whole message rest =
    let enough : ltb (length (message ++ rest)) (length message) ≡ false =
      ground (arith, length-append message rest) in
    rw (enough, take-append message rest, drop-append message rest) refl

-- A message of at most 10 MiB is read as it was written, with what follows it left on the connection;
-- a longer one of less than 4 GiB, which the writer does not refuse, is refused by the reader.
pub read_frame-write_frame :
    (message rest : List ℕ)
    → length message < 2 ^ 32
    → read_frame (write_frame message ++ rest) ≡ (
        if ltb max_message (length message) then too_large (length message) else frame message rest)
read_frame-write_frame message rest fits = read-write message rest fits ∙ whole message rest

length-drop_le : (n : ℕ) (xs : List ℕ) → length (drop n xs) ≤ length xs
length-drop_le zero xs = omega arith
length-drop_le (suc n) [] = omega arith
length-drop_le (suc n) (x ∷ xs) = omega (arith, length-drop_le n xs)

header_gone : (xs : List ℕ) → 4 ≤ length xs → length (drop 4 xs) < length xs
header_gone (a ∷ b ∷ c ∷ d ∷ xs) h = omega arith
header_gone [] h = absurd (omega arith)
header_gone (a ∷ []) h = absurd (omega arith)
header_gone (a ∷ b ∷ []) h = absurd (omega arith)
header_gone (a ∷ b ∷ c ∷ []) h = absurd (omega arith)

body_shorter :
    (size : ℕ) (body message rest : List ℕ)
    → read_body size body ≡ frame message rest
    → length rest ≤ length body
unfolding read_body
body_shorter size body message rest e = ground (arith, length-drop_le size body)

-- Every frame takes bytes off the connection.
pub read_frame-shorter :
    (stream message rest : List ℕ)
    → read_frame stream ≡ frame message rest
    → length rest < length stream
unfolding read_frame
read_frame-shorter stream message rest e = elim (Bool-cases (ltb (length stream) 4)) [
  | inl short ↦ absurd (cc (rw (short, read_frame) at e))
  | inr enough ↦
      let read : read_body (from_bytes 0 (take 4 stream)) (drop 4 stream) ≡ frame message rest =
        rw (enough, read_frame) at e in
      let below = body_shorter (from_bytes 0 (take 4 stream)) (drop 4 stream) message rest read in
      omega (arith, below, header_gone stream (ground arith))
]
