-- ===== src/Text/Find.antt =====
-- Searches in texts that are put together from parts: `find` passes over a part that cannot contain
-- the pattern, `take_until` takes a part without a stop.
use memory_aware_governor.Base.{
  ℕ, suc, ◌≡◌, refl, ap, Bool, true, false, ◌&&◌, ◌||◌, Option, none, some, [], ◌∷◌, ◌++◌, arith,
  ◌==◌, if_true, if_false,
}
use memory_aware_governor.Base.Int.{ℤ, pos, negsuc}
use memory_aware_governor.Text.{Text, find, take_until, is_digit, show_int, show}
use memory_aware_governor.Text.Number.{All, show-All}

-- The bytes of a printed number.
abbrev pub is_number : ℕ → Bool
is_number c = is_digit c || c == b'-'

digits-numbers : (s : Text) → All is_digit s → All is_number s
digits-numbers [] a = a
digits-numbers (c ∷ s) a = (digit c a.0, digits-numbers s a.1)
  where
    digit : (c : ℕ) → is_digit c ≡ true → is_number c ≡ true
    digit c h = ground arith

pub show-numbers : (n : ℕ) → All is_number (show n)
show-numbers n = digits-numbers (show n) (show-All n)

pub show_int-numbers : (i : ℤ) → All is_number (show_int i)
unfolding show_int
show_int-numbers (pos n) = show-numbers n
show_int-numbers (negsuc n) = (refl, show-numbers (suc n))

and_false : (a b : Bool) → a ≡ false → (a && b) ≡ false
and_false true b h = cc
and_false false b h = refl

no_quote : (c : ℕ) → is_number c ≡ true → (b'"' == c) ≡ false
no_quote c h = ground arith

-- A pattern that begins with a quote is not found in a number.
pub find-number :
    (p s rest : Text) → All is_number s → find (b'"' ∷ p) (s ++ rest) ≡ find (b'"' ∷ p) rest
find-number p [] rest a = refl
find-number p (c ∷ s) rest a =
    if_false _ _ _ _ (and_false _ _ (no_quote c a.0)) (find-number p s rest a.1)

pub take_until-plain :
    (stop plain : ℕ → Bool) (s : Text) (c : ℕ) (rest : Text)
    → ((d : ℕ) → plain d ≡ true → stop d ≡ false)
    → All plain s
    → stop c ≡ true
    → take_until stop (s ++ c ∷ rest) ≡ some s
take_until-plain stop plain [] c rest f a h = if_true _ _ _ _ h refl
take_until-plain stop plain (d ∷ s) c rest f a h = if_false _ _ _ _ (f d a.0) (
    ap (λ (o : Option Text). elim o [ none ↦ none | some t ↦ some (d ∷ t) ])
      (take_until-plain stop plain s c rest f a.1 h))
