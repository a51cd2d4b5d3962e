-- ===== src/Metrics/Format.antt =====
-- internal/metrics/metrics.go, the lines of `handleMetrics`; and, as a description of its own, what a
-- scraper of the Prometheus text format reads from such a text.
use Prim.Native.String.{String}
use inso_validator.Prelude.{
  ℕ, zero, suc, List, [], ◌∷◌, ◌++◌, Option, none, some, true, false, ◌==◌, if◌then◌else◌,
}
use inso_validator.Prelude.Int.{ℤ, pos, negsuc}
use inso_validator.Text.{codes, print_int, read_numeral}

pub record Family : Type 0 where
  pub name : String
  pub help : String
  pub kind : String
  pub samples : List (String × ℤ)

-- A sample line, without its end.
unfoldable pub sample_line : String × ℤ → List ℕ
sample_line s = codes s.0 ++ (32 ∷ print_int s.1)

-- Each line ends with a newline.
unfoldable pub end_lines : List (List ℕ) → List ℕ
end_lines [] = []
end_lines (l ∷ ls) = l ++ (10 ∷ end_lines ls)

unfoldable pub sample_lines : List (String × ℤ) → List (List ℕ)
sample_lines [] = []
sample_lines (s ∷ ss) = sample_line s ∷ sample_lines ss

-- Two comments, the samples, and an empty line.
unfoldable pub family_lines : Family → List (List ℕ)
family_lines f =
    (codes "# HELP " ++ (codes f.name ++ (32 ∷ codes f.help)))
    ∷ (codes "# TYPE " ++ (codes f.name ++ (32 ∷ codes f.kind)))
    ∷ (sample_lines f.samples ++ ([] ∷ []))

unfoldable pub all_lines : List Family → List (List ℕ)
all_lines [] = []
all_lines (f ∷ fs) = family_lines f ++ all_lines fs

unfoldable pub exposition : List Family → List ℕ
exposition fs = end_lines (all_lines fs)

-- The lines of a text, `line` being what is read of the first.
abbrev pub split_lines : List ℕ → List ℕ → List (List ℕ)
split_lines line [] = []
split_lines line (c ∷ cs) = elim (c == 10) [
  | true ↦ line ∷ split_lines [] cs
  | false ↦ split_lines (line ++ (c ∷ [])) cs
]

-- What stands before the first blank, and what behind it.
abbrev pub cut_blank : List ℕ → List ℕ → List ℕ × List ℕ
cut_blank word [] = (word, [])
cut_blank word (c ∷ cs) = elim (c == 32) [
  | true ↦ (word, cs)
  | false ↦ cut_blank (word ++ (c ∷ [])) cs
]

abbrev pub negate : ℕ → ℤ
negate zero = pos 0
negate (suc n) = negsuc n

abbrev pub map_option : (ℕ → ℤ) → Option ℕ → Option ℤ
map_option f none = none
map_option f (some n) = some (f n)

abbrev pub read_int : List ℕ → Option ℤ
read_int [] = none
read_int (c ∷ cs) =
    if c == 45
    then map_option negate (read_numeral 10 cs)
    else map_option pos (read_numeral 10 (c ∷ cs))

abbrev pub reading : List ℕ × List ℕ → List ℕ × Option ℤ
reading (name, value) = (name, read_int value)

-- An empty line and a comment carry no sample.
abbrev pub read_line : List ℕ → Option (List ℕ × Option ℤ)
read_line [] = none
read_line (c ∷ cs) = if c == 35 then none else some (reading (cut_blank [] (c ∷ cs)))

abbrev pub collect : List (List ℕ) → List (List ℕ × Option ℤ)
collect [] = []
collect (l ∷ ls) = elim (read_line l) [ none ↦ collect ls | some r ↦ r ∷ collect ls ]

-- The samples of a text: each name, labels included, with its value.
abbrev pub scrape : List ℕ → List (List ℕ × Option ℤ)
scrape text = collect (split_lines [] text)
