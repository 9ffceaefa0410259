-- ===== src/Text/Number.antt =====
-- Numbers that are printed are read back (`std::stoi`, `std::stoull` and `operator<<`, as
-- include/governor/protocol.h uses them).
use memory_aware_governor.Base.{
  ℕ, zero, suc, ◌+◌, ◌-◌, ◌*◌, ◌/◌, ◌%◌, ◌^◌, ◌<◌, ◌≡◌, ◌∙◌, refl, ap, Bool, true, false, Option,
  none, some, [], ◌∷◌, ◌++◌, arith, ltb, leb, ◌==◌, u64, inl, inr, Bool-cases, if_true, if_false,
  ==→eq, ==→ne,
}
use memory_aware_governor.Base.Int.{ℤ, pos, negsuc}
use memory_aware_governor.Text.{
  Text, ok, is_digit, is_space, scan_digits, magnitude, signed_magnitude, skip_space, stoull, stoi,
  show_from, show, show_int,
}

abbrev pub All : (ℕ → Bool) → Text → Type 0
All p [] = Unit {0}
All p (c ∷ s) = (p c ≡ true) × All p s

pub All-append : (p : ℕ → Bool) (s t : Text) → All p s → All p t → All p (s ++ t)
All-append p [] t a b = b
All-append p (c ∷ s) t a b = (a.0, All-append p s t a.1 b)

digit-IsDigit : (n : ℕ) → is_digit (b'0' + n % 10) ≡ true
digit-IsDigit n = ground arith

show_from-All : (fuel n : ℕ) (out : Text) → All is_digit out → All is_digit (show_from fuel n out)
unfolding show_from
show_from-All zero n out a = a
show_from-All (suc fuel) n out a = elim (Bool-cases (n / 10 == 0)) [
  | inl last ↦ rw last (digit-IsDigit n, a)
  | inr more ↦ rw more (show_from-All fuel (n / 10) ((b'0' + n % 10) ∷ out) (digit-IsDigit n, a))
]

-- A printed number consists of digits.
pub show-All : (n : ℕ) → All is_digit (show n)
unfolding show
show-All n = show_from-All (suc n) n [] tt

rebuild : (n : ℕ) → n / 10 * 10 + (b'0' + n % 10 - b'0') ≡ n
rebuild n = omega arith

rebuild-small : (n : ℕ) → n / 10 ≡ 0 → 0 * 10 + (b'0' + n % 10 - b'0') ≡ n
rebuild-small n h = omega arith

quotient-lt : (n fuel : ℕ) → (n / 10 ≡ 0 → ⊥) → n < suc fuel → n / 10 < fuel
quotient-lt n fuel ne h = omega arith

scan_digits-show_from :
    (fuel n : ℕ) (out : Text) → n < fuel → scan_digits 0 (show_from fuel n out) ≡ scan_digits n out
unfolding show_from
scan_digits-show_from zero n out h = absurd (omega arith)
scan_digits-show_from (suc fuel) n out h = elim (Bool-cases (n / 10 == 0)) [
  | inl last ↦
      let small = ==→eq (n / 10) 0 last in
      rw last (
        if_true _ _ _ _ (digit-IsDigit n)
          (ap (λ (k : ℕ). scan_digits k out) (rebuild-small n small)))
  | inr more ↦
      let big = ==→ne (n / 10) 0 more in
      rw more (
        scan_digits-show_from fuel (n / 10) ((b'0' + n % 10) ∷ out) (quotient-lt n fuel big h)
        ∙ if_true _ _ _ _ (digit-IsDigit n) (ap (λ (k : ℕ). scan_digits k out) (rebuild n)))
]

show_from-cons :
    (fuel n : ℕ) (d : ℕ) (out : Text) → (c : ℕ) × (s : Text) × (show_from fuel n (d ∷ out) ≡ c ∷ s)
unfolding show_from
show_from-cons zero n d out = (d, out, refl)
show_from-cons (suc fuel) n d out = elim (Bool-cases (n / 10 == 0)) [
  | inl last ↦ (b'0' + n % 10, d ∷ out, rw last)
  | inr more ↦ rw more (show_from-cons fuel (n / 10) (b'0' + n % 10) (d ∷ out))
]

pub show-cons : (n : ℕ) → (c : ℕ) × (s : Text) × (show n ≡ c ∷ s)
unfolding show show_from
show-cons n = elim (Bool-cases (n / 10 == 0)) [
  | inl last ↦ (b'0' + n % 10, [], rw last)
  | inr more ↦ rw more (show_from-cons n (n / 10) (b'0' + n % 10) [])
]

scan_digits-show : (n : ℕ) → scan_digits 0 (show n) ≡ n
unfolding show
scan_digits-show n = scan_digits-show_from (suc n) n [] (omega arith)

magnitude-show : (n : ℕ) → magnitude (show n) ≡ some n
magnitude-show n =
    let (c, s, e) = show-cons n in
    let all : All is_digit (c ∷ s) = rw e at (show-All n) in
    let read : scan_digits 0 (c ∷ s) ≡ n = rw e at (scan_digits-show n) in
    rw e (if_true _ _ _ _ all.0 (ap some read))

no_space : (c : ℕ) → is_digit c ≡ true → is_space c ≡ false
no_space c d = ground arith

no_minus : (c : ℕ) → is_digit c ≡ true → (c == b'-') ≡ false
no_minus c d = ground arith

no_plus : (c : ℕ) → is_digit c ≡ true → (c == b'+') ≡ false
no_plus c d = ground arith

-- The first digit is no space and no sign.
unsigned :
    (c : ℕ) (s : Text) (m : ℕ)
    → is_digit c ≡ true
    → magnitude (c ∷ s) ≡ some m
    → signed_magnitude (skip_space (c ∷ s)) ≡ some (false, m)
unsigned c s m d e =
    ap signed_magnitude (if_false _ _ _ _ (no_space c d) refl)
    ∙ if_false _ _ _ _ (no_minus c d) (
        if_false _ _ _ _ (no_plus c d)
          (ap (λ (o : Option ℕ). elim o [ none ↦ none | some m ↦ some (false, m) ]) e))

signed_magnitude-show : (n : ℕ) → signed_magnitude (skip_space (show n)) ≡ some (false, n)
signed_magnitude-show n =
    let (c, s, e) = show-cons n in
    let all : All is_digit (c ∷ s) = rw e at (show-All n) in
    let read : magnitude (c ∷ s) ≡ some n = rw e at (magnitude-show n) in
    rw e (unsigned c s n all.0 read)

signed_magnitude-minus : (n : ℕ) → signed_magnitude (skip_space (b'-' ∷ show n)) ≡ some (true, n)
signed_magnitude-minus n =
    ap (λ (o : Option ℕ). elim o [ none ↦ none | some m ↦ some (true, m) ]) (magnitude-show n)

stoull_branch :
    (s : Text) (n : ℕ)
    → signed_magnitude (skip_space s) ≡ some (false, n)
    → n < u64
    → stoull s ≡ ok n
unfolding stoull
stoull_branch s n e h = rw (e, stoull) (if_false _ _ _ _ (ge_false n h) refl)
  where
    ge_false : (n : ℕ) → n < u64 → leb u64 n ≡ false
    ge_false n h = ground arith

-- Every `uint64_t` is read back from its decimal print.
pub stoull-show : (n : ℕ) → n < u64 → stoull (show n) ≡ ok n
stoull-show n h = stoull_branch (show n) n (signed_magnitude-show n) h

-- An `int`.
abbrev pub IsInt : ℤ → Type 0
IsInt (pos n) = n < 2 ^ 31
IsInt (negsuc n) = n < 2 ^ 31

stoi_plus :
    (s : Text) (n : ℕ)
    → signed_magnitude (skip_space s) ≡ some (false, n)
    → n < 2 ^ 31
    → stoi s ≡ ok (pos n)
unfolding stoi
stoi_plus s n e h = rw (e, stoi) (if_false _ _ _ _ (small n h) refl)
  where
    small : (n : ℕ) → n < 2 ^ 31 → leb (2 ^ 31) n ≡ false
    small n h = ground arith

stoi_minus :
    (s : Text) (n : ℕ)
    → signed_magnitude (skip_space s) ≡ some (true, suc n)
    → n < 2 ^ 31
    → stoi s ≡ ok (negsuc n)
unfolding stoi
stoi_minus s n e h = rw (e, stoi) (if_false _ _ _ _ (small n h) refl)
  where
    small : (n : ℕ) → n < 2 ^ 31 → ltb (2 ^ 31) (suc n) ≡ false
    small n h = ground arith

-- Every `int` is read back from its decimal print.
pub stoi-show_int : (i : ℤ) → IsInt i → stoi (show_int i) ≡ ok i
unfolding show_int
stoi-show_int (pos n) h = stoi_plus (show n) n (signed_magnitude-show n) h
stoi-show_int (negsuc n) h = stoi_minus (b'-' ∷ show (suc n)) n (signed_magnitude-minus (suc n)) h
