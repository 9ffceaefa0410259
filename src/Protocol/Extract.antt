-- ===== src/Protocol/Extract.antt =====
-- `extract_string` of include/governor/protocol.h on a text that has the key.
use memory_aware_governor.Base.{
  ℕ, ◌≡◌, refl, ◌∙◌, ap, true, false, Option, none, some, [], ◌∷◌, ◌++◌, arith, if_false,
  if◌then◌else◌,
}
use memory_aware_governor.Text.{Text, codes, find, take_until}
use memory_aware_governor.Text.Number.{All}
use memory_aware_governor.Text.Find.{is_number, take_until-plain}
use memory_aware_governor.Protocol.{
  is_quote, is_blank, is_end, or_empty, value_after, after_colon, find_key, extract_string,
}

number_no_blank : (c : ℕ) → is_number c ≡ true → is_blank c ≡ false
number_no_blank c h = ground arith

number_no_end : (c : ℕ) → is_number c ≡ true → is_end c ≡ false
number_no_end c h = ground arith

-- A number behind a colon is read up to the comma or the brace behind it.
pub value_after-number :
    (v : Text) (x : ℕ) (s : Text) (c : ℕ) (rest : Text)
    → v ≡ x ∷ s
    → All is_number v
    → is_end c ≡ true
    → value_after (v ++ c ∷ rest) ≡ v
value_after-number v x s c rest e all h =
    let all' : All is_number (x ∷ s) = rw e at all in
    rw e (
      ap
        (λ (o : Option (ℕ × Text)). elim o [
          | none ↦ []
          | some (before, start) ↦
              or_empty
                (take_until (λ (c : ℕ). if is_quote before then is_quote c else is_end c) start)
        ])
        (if_false _ _ _ _ (number_no_blank x all'.0) refl)
      ∙ ap or_empty (take_until-plain is_end is_number (x ∷ s) c rest number_no_end all' h))

pub extract_string-found :
    (json key s rest v : Text) (colon : ℕ)
    → find_key key json ≡ some s
    → find (codes ":") s ≡ some (colon ∷ rest)
    → value_after rest ≡ v
    → extract_string json key ≡ v
unfolding extract_string
extract_string-found json key s rest v colon e f g =
    ap (λ (o : Option Text). elim o [ none ↦ [] | some s ↦ after_colon (find (codes ":") s) ]) e
    ∙ ap after_colon f
    ∙ g
