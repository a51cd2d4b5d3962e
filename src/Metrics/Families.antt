-- ===== src/Metrics/Families.antt =====
-- internal/metrics/metrics.go: the lines of each metric, and what a scraper reads from them.
use inso_validator.Metrics.Lines.{
  lacks, InRange, lacks-append, split_lines-line, cut_blank-word, read_int-print_int,
  print_int-lacks,
}
use Prim.Native.String.{String}
use inso_validator.Prelude.{
  ℕ, ◌≡◌, refl, ◌∙◌, ap, Bool, true, false, not, ◌&&◌, List, [], ◌∷◌, ◌++◌, Option, none, some,
  ◌==◌, arith, append_assoc, All, All-append,
}
use inso_validator.Prelude.Int.{ℤ}
use inso_validator.Text.{print_int, codes}
use inso_validator.Metrics.Format.{
  Family, sample_line, end_lines, sample_lines, family_lines, all_lines, exposition, split_lines,
  read_int, reading, read_line, collect, scrape,
}

-- A name can stand in a sample: no blank, no newline, and no sign of a comment at its head.
abbrev pub plain_name : List ℕ → Bool
plain_name [] = false
plain_name (c ∷ cs) = not (c == 35) && lacks 10 (c ∷ cs) && lacks 32 (c ∷ cs)

abbrev pub plain_samples : List (String × ℤ) → Bool
plain_samples [] = true
plain_samples (s ∷ ss) = plain_name (codes s.0) && plain_samples ss

abbrev pub plain_family : Family → Bool
plain_family f =
    lacks 10 (codes f.name)
    && lacks 10 (codes f.help)
    && lacks 10 (codes f.kind)
    && plain_samples f.samples

abbrev pub AllInRange : List (String × ℤ) → Type 0
AllInRange [] = Unit
AllInRange (s ∷ ss) = InRange s.1 × AllInRange ss

-- The samples of a family with their values.
abbrev pub readings : List (String × ℤ) → List (List ℕ × Option ℤ)
readings [] = []
readings (s ∷ ss) = (codes s.0, some s.1) ∷ readings ss

read_name :
    (name rest : List ℕ)
    → plain_name name ≡ true
    → read_line (name ++ (32 ∷ rest)) ≡ some (name, read_int rest)
read_name [] rest h = absurd (cc)
read_name (c ∷ cs) rest h =
    let comment : (c == 35) ≡ false = ground arith in
    rw comment (ap (λ p. some (reading p)) (cut_blank-word [] (c ∷ cs) rest (ground arith)))

read_line-sample_line :
    (s : String × ℤ)
    → plain_name (codes s.0) ≡ true
    → InRange s.1
    → read_line (sample_line s) ≡ some (codes s.0, some s.1)
unfolding sample_line
read_line-sample_line s h r =
    read_name (codes s.0) (print_int s.1) h
    ∙ ap (λ v. some (codes s.0, v)) (read_int-print_int s.1 r)

-- What a family's samples give, whatever lines follow.
collect-sample_lines :
    (ss : List (String × ℤ)) (rest : List (List ℕ))
    → plain_samples ss ≡ true
    → AllInRange ss
    → collect (sample_lines ss ++ rest) ≡ readings ss ++ collect rest
unfolding sample_lines
collect-sample_lines [] rest h r = refl
collect-sample_lines (s ∷ ss) rest h (r, rs) =
    ap
      (λ o. elim o [
        | none ↦ collect (sample_lines ss ++ rest)
        | some x ↦ x ∷ collect (sample_lines ss ++ rest)
      ])
      (read_line-sample_line s (ground arith) r)
    ∙ ap (λ l. (codes s.0, some s.1) ∷ l) (collect-sample_lines ss rest (ground arith) rs)

collect-family_lines :
    (f : Family) (rest : List (List ℕ))
    → plain_family f ≡ true
    → AllInRange f.samples
    → collect (family_lines f ++ rest) ≡ readings f.samples ++ collect rest
unfolding family_lines
collect-family_lines f rest h r =
    ap collect (append_assoc (sample_lines f.samples) ([] ∷ []) rest)
    ∙ collect-sample_lines f.samples ([] ∷ rest) (ground arith) r

abbrev OneLine : List ℕ → Type 0
OneLine l = lacks 10 l ≡ true

split_lines-end_lines : (ls : List (List ℕ)) → All OneLine ls → split_lines [] (end_lines ls) ≡ ls
unfolding end_lines
split_lines-end_lines [] h = refl
split_lines-end_lines (l ∷ ls) (h, hs) =
    split_lines-line [] l (end_lines ls) h ∙ ap (λ p. l ∷ p) (split_lines-end_lines ls hs)

sample_lines-OneLine :
    (ss : List (String × ℤ)) → plain_samples ss ≡ true → All OneLine (sample_lines ss)
unfolding sample_lines sample_line
sample_lines-OneLine [] h = tt
sample_lines-OneLine (s ∷ ss) h = (
  lacks-append 10 (codes s.0) (32 ∷ print_int s.1) (plain_name-OneLine (codes s.0) (ground arith))
      (ground (arith, print_int-lacks 10 s.1)),
  sample_lines-OneLine ss (ground arith),
)
  where
    plain_name-OneLine : (name : List ℕ) → plain_name name ≡ true → OneLine name
    plain_name-OneLine [] p = refl
    plain_name-OneLine (c ∷ cs) p = ground arith

comment-OneLine :
    (mark : List ℕ) (name : List ℕ) (text : List ℕ)
    → OneLine mark
    → OneLine name
    → OneLine text
    → OneLine (mark ++ (name ++ (32 ∷ text)))
comment-OneLine mark name text m n t =
    lacks-append 10 mark (name ++ (32 ∷ text)) m (lacks-append 10 name (32 ∷ text) n t)

family_lines-OneLine : (f : Family) → plain_family f ≡ true → All OneLine (family_lines f)
unfolding family_lines
family_lines-OneLine f h = (
  comment-OneLine (codes "# HELP ") (codes f.name) (codes f.help) refl (ground arith)
      (ground arith),
  (
    comment-OneLine (codes "# TYPE ") (codes f.name) (codes f.kind) refl (ground arith)
        (ground arith),
    All-append OneLine (sample_lines f.samples) ([] ∷ [])
        (sample_lines-OneLine f.samples (ground arith)) (refl, tt),
  ),
)

abbrev pub plain_families : List Family → Bool
plain_families [] = true
plain_families (f ∷ fs) = plain_family f && plain_families fs

abbrev pub FamiliesInRange : List Family → Type 0
FamiliesInRange [] = Unit
FamiliesInRange (f ∷ fs) = AllInRange f.samples × FamiliesInRange fs

abbrev pub all_readings : List Family → List (List ℕ × Option ℤ)
all_readings [] = []
all_readings (f ∷ fs) = readings f.samples ++ all_readings fs

all_lines-OneLine : (fs : List Family) → plain_families fs ≡ true → All OneLine (all_lines fs)
unfolding all_lines
all_lines-OneLine [] h = tt
all_lines-OneLine (f ∷ fs) h =
    All-append OneLine (family_lines f) (all_lines fs) (family_lines-OneLine f (ground arith))
      (all_lines-OneLine fs (ground arith))

collect-all_lines :
    (fs : List Family)
    → plain_families fs ≡ true
    → FamiliesInRange fs
    → collect (all_lines fs) ≡ all_readings fs
unfolding all_lines
collect-all_lines [] h r = refl
collect-all_lines (f ∷ fs) h (r, rs) =
    collect-family_lines f (all_lines fs) (ground arith) r
    ∙ ap (λ l. readings f.samples ++ l) (collect-all_lines fs (ground arith) rs)

-- The samples of plain families are read back.
pub scrape-exposition :
    (fs : List Family)
    → plain_families fs ≡ true
    → FamiliesInRange fs
    → scrape (exposition fs) ≡ all_readings fs
unfolding exposition
scrape-exposition fs h r =
    ap collect (split_lines-end_lines (all_lines fs) (all_lines-OneLine fs h))
    ∙ collect-all_lines fs h r
