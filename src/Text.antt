-- ===== src/Text.antt =====
-- Texts as lists of bytes, with the operations of `std::string` and of the number conversions that
-- include/governor/protocol.h and src/governor/psi_poller.cpp use.
--
-- A position in a text is the rest of the text that begins there, and `npos` is `none`.
pub mod Find
pub mod Number
use memory_aware_governor.Base.{
  ℕ, ◌≡◌, zero, suc, ◌+◌, ◌-◌, ◌*◌, ◌/◌, ◌%◌, ◌^◌, Bool, true, false, ◌&&◌, ◌||◌, Option, none,
  some, List, [], ◌∷◌, ltb, leb, ◌==◌, if◌then◌else◌, u64,
}
use memory_aware_governor.Base.Int.{ℤ, pos, negsuc}
use Prim.Native.Char.{code}
use Prim.Native.String.{String}

abbrev pub Text : Type 0
Text = List ℕ

-- The bytes of a literal.
abbrev pub codes : String → Text
codes String.[] = []
codes (String.◌∷◌ c s) = code c ∷ codes s

-- The standard exceptions of the conversions.
pub data Error : Type 0 where
  invalid_argument out_of_range : Error

pub data Result {ℓ} (A : Type ℓ) : Type ℓ where
  ok : A → Result A
  throw : Error → Result A

infixl 5 ◌>>=◌
abbrev pub ◌>>=◌ {ℓ κ} : {A : Type ℓ} {B : Type κ} → Result A → (A → Result B) → Result B
ok a >>= f = f a
throw e >>= f = throw e

pub >>=-ok {ℓ κ} :
    {A : Type ℓ} {B : Type κ} (a : A) (r : Result A) (f : A → Result B) (s : Result B)
    → r ≡ ok a
    → f a ≡ s
    → (r >>= f) ≡ s
>>=-ok a r f s e h = rw (e, ◌>>=◌) h

-- `a == b`
abbrev pub text_eq : Text → Text → Bool
text_eq [] [] = true
text_eq [] (d ∷ t) = false
text_eq (c ∷ s) [] = false
text_eq (c ∷ s) (d ∷ t) = c == d && text_eq s t

-- Whether `s` begins with `pattern`.
abbrev pub starts_with : Text → Text → Bool
starts_with [] s = true
starts_with (c ∷ p) [] = false
starts_with (c ∷ p) (d ∷ s) = c == d && starts_with p s

-- `s.find(pattern)`: the rest of the text from the first match on.
abbrev pub find : Text → Text → Option Text
find p [] = if starts_with p [] then some [] else none
find p (c ∷ s) = if starts_with p (c ∷ s) then some (c ∷ s) else find p s

-- `s.find_first_not_of(...)` where `skipped` holds of the bytes to pass over: the byte before the
-- position, and the rest of the text from there on. `before` precedes `s`.
abbrev pub find_first_not_of : (ℕ → Bool) → ℕ → Text → Option (ℕ × Text)
find_first_not_of skipped before [] = none
find_first_not_of skipped before (c ∷ s) =
    if skipped c then find_first_not_of skipped c s else some (before, c ∷ s)

-- The text up to the first byte at which `stop` holds, `s.substr(0, s.find_first_of(...))`.
abbrev pub take_until : (ℕ → Bool) → Text → Option Text
take_until stop [] = none
take_until stop (c ∷ s) =
    if stop c then some [] else elim (take_until stop s) [ none ↦ none | some t ↦ some (c ∷ t) ]

abbrev pub is_digit : ℕ → Bool
is_digit c = leb b'0' c && leb c b'9'

-- `isspace` in the "C" locale.
abbrev pub is_space : ℕ → Bool
is_space c = c == 32 || leb 9 c && leb c 13

-- The digits at the front of a text, read behind the number `n`.
abbrev pub scan_digits : ℕ → Text → ℕ
scan_digits n [] = n
scan_digits n (c ∷ s) =
    let rest = scan_digits (n * 10 + (c - b'0')) s in if is_digit c then rest else n

-- The magnitude, `none` if there is no digit.
abbrev pub magnitude : Text → Option ℕ
magnitude [] = none
magnitude (c ∷ s) = if is_digit c then some (scan_digits 0 (c ∷ s)) else none

-- An optional sign: whether it is a minus, and the magnitude.
abbrev pub signed_magnitude : Text → Option (Bool × ℕ)
signed_magnitude [] = none
signed_magnitude (c ∷ s) =
    if c == b'-'
    then elim (magnitude s) [ none ↦ none | some m ↦ some (true, m) ]
    else if c == b'+'
    then elim (magnitude s) [ none ↦ none | some m ↦ some (false, m) ]
    else elim (magnitude (c ∷ s)) [ none ↦ none | some m ↦ some (false, m) ]

abbrev pub skip_space : Text → Text
skip_space [] = []
skip_space (c ∷ s) = if is_space c then skip_space s else c ∷ s

-- `std::stoull(s)`: a minus sign negates the value in `unsigned long long`.
unfoldable pub stoull : Text → Result ℕ
stoull s = elim (signed_magnitude (skip_space s)) [
  | none ↦ throw invalid_argument
  | some (minus, m) ↦
      if leb u64 m then throw out_of_range else ok (if minus then (u64 - m) % u64 else m)
]

-- `-n`
abbrev pub negate : ℕ → ℤ
negate zero = pos 0
negate (suc n) = negsuc n

-- `std::stoi(s)`
unfoldable pub stoi : Text → Result ℤ
stoi s = elim (signed_magnitude (skip_space s)) [
  | none ↦ throw invalid_argument
  | some (true, m) ↦ if ltb (2 ^ 31) m then throw out_of_range else ok (negate m)
  | some (false, m) ↦ if leb (2 ^ 31) m then throw out_of_range else ok (pos m)
]

-- The decimal digits of `n` in front of `out`, one division in each round. The fuel is enough if
-- it is larger than `n`.
unfoldable pub show_from : ℕ → ℕ → Text → Text
show_from zero n out = out
show_from (suc fuel) n out =
    let rest = show_from fuel (n / 10) ((b'0' + n % 10) ∷ out) in
    if n / 10 == 0 then (b'0' + n % 10) ∷ out else rest

-- `ss << n` for an unsigned number.
unfoldable pub show : ℕ → Text
unfolding show_from
show n = show_from (suc n) n []

-- `ss << i` for a signed one.
unfoldable pub show_int : ℤ → Text
unfolding show
show_int (pos n) = show n
show_int (negsuc n) = b'-' ∷ show (suc n)
