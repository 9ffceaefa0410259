-- ===== src/Psi/Rendered.antt =====
-- The text of /proc/pressure/memory is read back (`parse_psi_file` of src/governor/psi_poller.cpp).
use memory_aware_governor.Base.{
  ℕ, ◌<◌, ◌≡◌, refl, ◌∙◌, ap, Bool, true, false, List, [], ◌∷◌, ◌++◌, ◌==◌, arith, if◌then◌else◌,
  if_true, if_false, u64,
}
use memory_aware_governor.Base.Double.{Doubles}
use memory_aware_governor.Psi.{PsiData}
use memory_aware_governor.Psi.Parse.{
  prepend, lines, at_end, words, without_prefix, LineData, read_tokens, read_line, read_lines,
  some_line, full_line, set_some, set_full, no_pressure, parse_psi_file,
}
use memory_aware_governor.Text.{Text, codes, Result, ok, >>=-ok, is_digit, is_space, show}
use memory_aware_governor.Text.Number.{All, All-append, show-All, stoull-show}

abbrev pub visible : ℕ → Bool
visible c = if is_space c then false else true

abbrev one_line : ℕ → Bool
one_line c = if c == 10 then false else true

no_space : (c : ℕ) → visible c ≡ true → is_space c ≡ false
no_space c h = ground arith

no_newline : (c : ℕ) → one_line c ≡ true → (c == 10) ≡ false
no_newline c h = ground arith

visible-one_line : (c : ℕ) → visible c ≡ true → one_line c ≡ true
visible-one_line c h = ground arith

digit-visible : (c : ℕ) → is_digit c ≡ true → visible c ≡ true
digit-visible c h = ground arith

weaken : (p q : ℕ → Bool) (s : Text) → ((c : ℕ) → p c ≡ true → q c ≡ true) → All p s → All q s
weaken p q [] f a = tt
weaken p q (c ∷ s) f a = (f c a.0, weaken p q s f a.1)

lines-line : (l rest : Text) → All one_line l → lines (l ++ 10 ∷ rest) ≡ l ∷ lines rest
lines-line [] rest a = refl
lines-line (c ∷ l) rest a =
    if_false _ _ _ _ (no_newline c a.0) (ap (prepend c) (lines-line l rest a.1))

words-word :
    (c : ℕ) (s rest : Text)
    → All visible (c ∷ s)
    → at_end rest ≡ true
    → words ((c ∷ s) ++ rest) ≡ (c ∷ s) ∷ words rest
words-word c [] rest a h = if_false _ _ _ _ (no_space c a.0) (if_true _ _ _ _ h refl)
words-word c (d ∷ s) rest a h =
    if_false _ _ _ _ (no_space c a.0)
      (if_false _ _ _ _ (no_space d a.1.0) (ap (prepend c) (words-word d s rest a.1 h)))

-- A word: at least one byte, and no space.
abbrev Word : Text → Type 0
Word [] = ⊥
Word (c ∷ s) = All visible (c ∷ s)

abbrev Words : List Text → Type 0
Words [] = Unit {0}
Words (w ∷ ws) = Word w × Words ws

-- Some words behind a word, each behind a space.
abbrev pub behind : List Text → Text
behind [] = []
behind (w ∷ ws) = b' ' ∷ (w ++ behind ws)

behind-at_end : (ws : List Text) → at_end (behind ws) ≡ true
behind-at_end [] = refl
behind-at_end (w ∷ ws) = refl

words-behind : (ws : List Text) → Words ws → words (behind ws) ≡ ws
words-behind [] h = refl
words-behind ([] ∷ ws) h = elim (h.0) [ ]
words-behind ((c ∷ s) ∷ ws) h =
    words-word c s (behind ws) h.0 (behind-at_end ws)
    ∙ ap (λ (t : List Text). (c ∷ s) ∷ t) (words-behind ws h.1)

one_line-behind : (ws : List Text) → Words ws → All one_line (behind ws)
one_line-behind [] h = tt
one_line-behind ([] ∷ ws) h = elim (h.0) [ ]
one_line-behind ((c ∷ s) ∷ ws) h = (
  refl,
  All-append one_line (c ∷ s) (behind ws) (weaken visible one_line (c ∷ s) visible-one_line h.0)
      (one_line-behind ws h.1),
)

module _ (d : Doubles) where
  open d use {Double}

  module _ (stod : Text → Result Double) where
    -- A printed number: a text without spaces that `std::stod` reads.
    pub record Decimal : Type 0 where
      pub text : Text
      pub value : Double
      pub plain : All visible text
      pub reads : stod text ≡ ok value

    -- The four fields of a line of the file.
    pub record Fields : Type 0 where
      pub avg10 : Decimal
      pub avg60 : Decimal
      pub avg300 : Decimal
      pub total : ℕ
      pub in_range : total < u64

    abbrev pub tokens : Fields → List Text
    tokens f =
        (codes "avg10=" ++ f.avg10.text)
        ∷ (codes "avg60=" ++ f.avg60.text)
        ∷ (codes "avg300=" ++ f.avg300.text)
        ∷ (codes "total=" ++ show f.total)
        ∷ []

    tokens-Words : (f : Fields) → Words (tokens f)
    tokens-Words f = (
      (refl, (refl, (refl, (refl, (refl, (refl, f.avg10.plain)))))),
      (
        (refl, (refl, (refl, (refl, (refl, (refl, f.avg60.plain)))))),
        (
          (refl, (refl, (refl, (refl, (refl, (refl, (refl, f.avg300.plain))))))),
          (
            (
              refl,
              (
                refl,
                (
                  refl,
                  (
                    refl,
                    (
                      refl,
                      (
                        refl,
                        weaken is_digit visible (show f.total) digit-visible (show-All f.total),
                      ),
                    ),
                  ),
                ),
              ),
            ),
            tt,
          ),
        ),
      ),
    )

    abbrev values : Fields → LineData Double
    values f = record {
      avg10 = f.avg10.value;
      avg60 = f.avg60.value;
      avg300 = f.avg300.value;
      total = f.total;
    }

    read_tokens-tokens :
        (f : Fields) (l : LineData Double) → read_tokens d stod (tokens f) l ≡ ok (values f)
    read_tokens-tokens f l =
        let l1 : LineData Double = record l { avg10 = f.avg10.value } in
        let l2 : LineData Double = record l1 { avg60 = f.avg60.value } in
        let l3 : LineData Double = record l2 { avg300 = f.avg300.value } in
        >>=-ok l1 _ _ _ (>>=-ok f.avg10.value _ _ _ f.avg10.reads refl) (
          >>=-ok l2 _ _ _ (>>=-ok f.avg60.value _ _ _ f.avg60.reads refl) (
            >>=-ok l3 _ _ _ (>>=-ok f.avg300.value _ _ _ f.avg300.reads refl) (
              >>=-ok (values f) _ _ _ (>>=-ok f.total _ _ _ (stoull-show f.total f.in_range) refl)
                refl)))

    abbrev pub line_text : Text → Fields → Text
    line_text kind f = kind ++ behind (tokens f)

    read_line-some :
        (f : Fields) (p : PsiData Double)
        → read_line d stod (line_text (codes "some") f) p ≡ ok (set_some d stod (values f) p)
    read_line-some f p =
        >>=-ok (values f) _ _ _
          (ap (λ (ws : List Text). read_tokens d stod (without_prefix ws) (some_line d stod p))
              (words-word b's' (codes "ome") (behind (tokens f)) (refl, (refl, (refl, (refl, tt))))
                (behind-at_end (tokens f)))
            ∙ ap (λ (ws : List Text). read_tokens d stod ws (some_line d stod p))
                (words-behind (tokens f) (tokens-Words f))
            ∙ read_tokens-tokens f (some_line d stod p))
          refl

    read_line-full :
        (f : Fields) (p : PsiData Double)
        → read_line d stod (line_text (codes "full") f) p ≡ ok (set_full d stod (values f) p)
    read_line-full f p =
        >>=-ok (values f) _ _ _
          (ap (λ (ws : List Text). read_tokens d stod (without_prefix ws) (full_line d stod p))
              (words-word b'f' (codes "ull") (behind (tokens f)) (refl, (refl, (refl, (refl, tt))))
                (behind-at_end (tokens f)))
            ∙ ap (λ (ws : List Text). read_tokens d stod ws (full_line d stod p))
                (words-behind (tokens f) (tokens-Words f))
            ∙ read_tokens-tokens f (full_line d stod p))
          refl

    line_text-one_line :
        (kind : Text) (f : Fields) → All one_line kind → All one_line (line_text kind f)
    line_text-one_line kind f h =
        All-append one_line kind (behind (tokens f)) h (one_line-behind (tokens f) (tokens-Words f))

    -- The text of the file, and the record that it stands for.
    abbrev pub file_text : Fields → Fields → Text
    file_text f g = line_text (codes "some") f ++ 10 ∷ (line_text (codes "full") g ++ 10 ∷ [])

    abbrev pub file_data : Fields → Fields → PsiData Double
    file_data f g = record {
      some_avg10 = f.avg10.value;
      some_avg60 = f.avg60.value;
      some_avg300 = f.avg300.value;
      some_total = f.total;
      full_avg10 = g.avg10.value;
      full_avg60 = g.avg60.value;
      full_avg300 = g.avg300.value;
      full_total = g.total;
    }

    -- The text of the pressure file, a line some and a line full with avg10, avg60, avg300 and
    -- total, is read as the eight numbers that it shows, if std::stod reads the texts of the
    -- averages as their values, these texts contain no space, and the totals are below 2 to the
    -- 64.
    pub parse_psi_file-file_text :
        (f g : Fields) → parse_psi_file d stod (file_text f g) ≡ ok (file_data f g)
    unfolding parse_psi_file
    parse_psi_file-file_text f g =
        ap (λ (ls : List Text). read_lines d stod ls (no_pressure d stod))
          (lines-line (line_text (codes "some") f) (line_text (codes "full") g ++ 10 ∷ [])
              (line_text-one_line (codes "some") f (refl, (refl, (refl, (refl, tt)))))
            ∙ ap (λ (ls : List Text). line_text (codes "some") f ∷ ls)
                (lines-line (line_text (codes "full") g) []
                  (line_text-one_line (codes "full") g (refl, (refl, (refl, (refl, tt)))))))
        ∙ >>=-ok (set_some d stod (values f) (no_pressure d stod)) _ _ _
            (read_line-some f (no_pressure d stod))
            (>>=-ok (file_data f g) _ _ _
              (read_line-full g (set_some d stod (values f) (no_pressure d stod))) refl)
