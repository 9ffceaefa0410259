-- ===== src/Psi/Parse.antt =====
-- `parse_psi_file` and a round of `poll_loop` of src/governor/psi_poller.cpp. `std::stod` is a parameter.
use memory_aware_governor.Base.{
  ℕ, Bool, true, Option, none, some, List, [], ◌∷◌, ◌==◌, if◌then◌else◌,
}
use memory_aware_governor.Base.Double.{Doubles}
use memory_aware_governor.Psi.{PsiData}
use memory_aware_governor.Text.{
  Text, codes, Result, ok, ◌>>=◌, text_eq, starts_with, is_space, stoull,
}

-- A byte in front of the first of some texts.
abbrev pub prepend : ℕ → List Text → List Text
prepend c [] = (c ∷ []) ∷ []
prepend c (l ∷ ls) = (c ∷ l) ∷ ls

-- The lines that `std::getline` reads.
abbrev pub lines : Text → List Text
lines [] = []
lines (c ∷ s) = let rest = lines s in if c == 10 then [] ∷ rest else prepend c rest

abbrev pub at_end : Text → Bool
at_end [] = true
at_end (c ∷ s) = is_space c

-- The tokens that `>>` reads.
abbrev pub words : Text → List Text
words [] = []
words (c ∷ s) =
    let rest = words s in
    if is_space c then rest else if at_end s then (c ∷ []) ∷ rest else prepend c rest

-- The texts before and behind the first `=`.
abbrev pub split_eq : Text → Option (Text × Text)
split_eq [] = none
split_eq (c ∷ s) =
    if c == b'='
    then some ([], s)
    else elim (split_eq s) [ none ↦ none | some parts ↦ some (c ∷ parts.0, parts.1) ]

-- The four variables that `parse_line` is given.
pub record LineData (D : Type 0) : Type 0 where
  pub avg10 : D
  pub avg60 : D
  pub avg300 : D
  pub total : ℕ

abbrev pub without_prefix : List Text → List Text
without_prefix [] = []
without_prefix (prefix ∷ tokens) = tokens

module _ (d : Doubles) where
  open d use {Double, literal}

  module _ (stod : Text → Result Double) where
    abbrev pub set_value : Text → Text → LineData Double → Result (LineData Double)
    set_value key val l =
        if text_eq key (codes "avg10")
        then (do x ← stod val; ok (record l { avg10 = x }))
        else if text_eq key (codes "avg60")
        then (do x ← stod val; ok (record l { avg60 = x }))
        else if text_eq key (codes "avg300")
        then (do x ← stod val; ok (record l { avg300 = x }))
        else if text_eq key (codes "total")
        then (do n ← stoull val; ok (record l { total = n }))
        else ok l

    abbrev pub read_token : Text → LineData Double → Result (LineData Double)
    read_token token l = elim (split_eq token) [
      | none ↦ ok l
      | some parts ↦ set_value parts.0 parts.1 l
    ]

    abbrev pub read_tokens : List Text → LineData Double → Result (LineData Double)
    read_tokens [] l = ok l
    read_tokens (token ∷ tokens) l = read_token token l >>= read_tokens tokens

    abbrev pub parse_line : Text → LineData Double → Result (LineData Double)
    parse_line l into = read_tokens (without_prefix (words l)) into

    abbrev pub some_line : PsiData Double → LineData Double
    some_line p = record {
      avg10 = p.some_avg10;
      avg60 = p.some_avg60;
      avg300 = p.some_avg300;
      total = p.some_total;
    }

    abbrev pub full_line : PsiData Double → LineData Double
    full_line p = record {
      avg10 = p.full_avg10;
      avg60 = p.full_avg60;
      avg300 = p.full_avg300;
      total = p.full_total;
    }

    abbrev pub set_some : LineData Double → PsiData Double → PsiData Double
    set_some l p = record p {
      some_avg10 = l.avg10;
      some_avg60 = l.avg60;
      some_avg300 = l.avg300;
      some_total = l.total;
    }

    abbrev pub set_full : LineData Double → PsiData Double → PsiData Double
    set_full l p = record p {
      full_avg10 = l.avg10;
      full_avg60 = l.avg60;
      full_avg300 = l.avg300;
      full_total = l.total;
    }

    -- One line of the file, which may be of another kind.
    abbrev pub read_line : Text → PsiData Double → Result (PsiData Double)
    read_line l p =
        if starts_with (codes "some") l
        then (do v ← parse_line l (some_line p); ok (set_some v p))
        else if starts_with (codes "full") l
        then (do v ← parse_line l (full_line p); ok (set_full v p))
        else ok p

    abbrev pub read_lines : List Text → PsiData Double → Result (PsiData Double)
    read_lines [] p = ok p
    read_lines (l ∷ ls) p = read_line l p >>= read_lines ls

    abbrev pub no_pressure : PsiData Double
    no_pressure = record {
      some_avg10 = literal 0;
      some_avg60 = literal 0;
      some_avg300 = literal 0;
      some_total = 0;
      full_avg10 = literal 0;
      full_avg60 = literal 0;
      full_avg300 = literal 0;
      full_total = 0;
    }

    unfoldable pub parse_psi_file : Text → Result (PsiData Double)
    parse_psi_file content = read_lines (lines content) no_pressure
