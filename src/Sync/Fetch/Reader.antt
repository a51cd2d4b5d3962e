-- ===== src/Sync/Fetch/Reader.antt =====
-- The reader that hands the body of a request to the HTTP client.
use inso_validator.Prelude.{
  ℕ, zero, suc, ◌+◌, ◌-◌, ◌<◌, ◌≡◌, refl, sym, ap, ◌∙◌, true, false, List, [], ◌∷◌, ◌++◌, Option,
  none, some, leb, length, take, drop, arith, Bool-cases, inl, inr, take-append-drop,
}
use inso_validator.Sync.Fetch.{BytesReader, json_reader, read}

-- A client that reads with buffers of these sizes until the end, or until it has used them all.
unfoldable pub drain : BytesReader → List ℕ → List ℕ
drain r [] = []
drain r (size ∷ sizes) =
    let (r', copied) = read r size in
    elim copied [ none ↦ [] | some chunk ↦ chunk ++ drain r' sizes ]

-- Every buffer has room for at least one byte.
abbrev pub AllPositive : List ℕ → Type 0
AllPositive [] = Unit
AllPositive (size ∷ sizes) = (0 < size) × AllPositive sizes

-- The bytes that are left.
abbrev left : BytesReader → List ℕ
left r = drop r.pos r.bytes

length-drop : (n : ℕ) (xs : List ℕ) → length (drop n xs) ≡ length xs - n
length-drop zero xs = omega arith
length-drop (suc n) [] = omega arith
length-drop (suc n) (x ∷ xs) = omega (arith, length-drop n xs)

drop-nil : (n : ℕ) → drop {A = ℕ} n [] ≡ []
drop-nil zero = refl
drop-nil (suc n) = refl

drop-drop : (m n : ℕ) (xs : List ℕ) → drop n (drop m xs) ≡ drop (m + n) xs
drop-drop zero n xs = ap (λ k. drop k xs) (omega arith)
drop-drop (suc m) n [] = drop-nil n ∙ sym (drop-nil (suc m + n))
drop-drop (suc m) n (x ∷ xs) =
    let e : suc m + n ≡ suc (m + n) = omega arith in
    drop-drop m n xs ∙ ap (λ k. drop k (x ∷ xs)) (sym e)

drop-length-take : (n : ℕ) (xs : List ℕ) → drop (length (take n xs)) xs ≡ drop n xs
drop-length-take zero xs = refl
drop-length-take (suc n) [] = refl
drop-length-take (suc n) (x ∷ xs) = drop-length-take n xs

-- One read with some bytes left.
read_some :
    (r : BytesReader) (size : ℕ)
    → leb (length r.bytes) r.pos ≡ false
    → read r size
      ≡ (record r { pos = r.pos + length (take size (left r)) }, some (take size (left r)))
unfolding read
read_some r size more = rw more refl

read_none :
    (r : BytesReader) (size : ℕ) → leb (length r.bytes) r.pos ≡ true → read r size ≡ (r, none)
unfolding read
read_none r size over = rw over refl

empty_of_length : (xs : List ℕ) → length xs ≡ 0 → xs ≡ []
empty_of_length [] h = refl
empty_of_length (x ∷ xs) h = absurd (omega arith)

after_turn : List ℕ → BytesReader × Option (List ℕ) → List ℕ
after_turn sizes p = elim p.1 [ none ↦ [] | some chunk ↦ chunk ++ drain p.0 sizes ]

drain-left :
    (sizes : List ℕ) (r : BytesReader)
    → AllPositive sizes
    → length (left r) < length sizes
    → drain r sizes ≡ left r
unfolding drain after_turn
drain-left [] r p enough = absurd (omega arith)
drain-left (size ∷ sizes) r (some_room, p) enough = elim (Bool-cases (leb (length r.bytes) r.pos)) [
  | inl over ↦
      ap (after_turn sizes) (read_none r size over)
      ∙ sym (empty_of_length (left r) (ground (arith, length-drop r.pos r.bytes)))
  | inr more ↦
      let r' : BytesReader = record r { pos = r.pos + length (take size (left r)) } in
      let behind : left r' ≡ drop size (left r) =
        sym (drop-drop r.pos (length (take size (left r))) r.bytes)
        ∙ drop-length-take size (left r) in
      let fewer : length (left r') < length sizes =
        ground (arith, ap length behind, length-drop size (left r), length-drop r.pos r.bytes) in
      ap (after_turn sizes) (read_some r size more)
      ∙ ap (λ l. take size (left r) ++ l) (drain-left sizes r' p fewer ∙ behind)
      ∙ take-append-drop size (left r)
]

-- A client that reads with buffers of any sizes above zero gets the whole body and nothing else, within
-- one read per byte and one more.
pub drain-json_reader :
    (body sizes : List ℕ)
    → AllPositive sizes
    → length body < length sizes
    → drain (json_reader body) sizes ≡ body
unfolding json_reader
drain-json_reader body sizes p enough = drain-left sizes (json_reader body) p enough
