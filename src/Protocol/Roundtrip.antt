-- ===== src/Protocol/Roundtrip.antt =====
-- `serialize`, `deserialize` and `frame` of include/governor/protocol.h fit together.
use memory_aware_governor.Base.{
  ℕ, suc, ◌<◌, ◌≡◌, refl, ◌∙◌, ap, sym, true, ◌∷◌, ◌++◌, ++-assoc, u64,
}
use memory_aware_governor.Base.Int.{ℤ, pos, negsuc}
use memory_aware_governor.Text.{Text, codes, Result, ok, >>=-ok, find, stoull, stoi, show, show_int}
use memory_aware_governor.Text.Number.{show-cons, stoull-show, stoi-show_int, IsInt}
use memory_aware_governor.Text.Find.{show-numbers, show_int-numbers, find-number}
use memory_aware_governor.Protocol.{
  MessageType, register, report_size, shrink, grow, ack, heartbeat, unknown, Message,
  type_to_string, string_to_type, serialize, is_end, value_after, find_key, extract_string,
  number_field, deserialize,
}
use memory_aware_governor.Protocol.Extract.{value_after-number, extract_string-found}

-- Every type is read back from its name.
pub string_to_type-type_to_string : (t : MessageType) → string_to_type (type_to_string t) ≡ t
string_to_type-type_to_string register = refl
string_to_type-type_to_string report_size = refl
string_to_type-type_to_string shrink = refl
string_to_type-type_to_string grow = refl
string_to_type-type_to_string ack = refl
string_to_type-type_to_string heartbeat = refl
string_to_type-type_to_string unknown = refl

-- The fields of a message and the text behind it, from each field on.
abbrev pub tier_on : Message → Text → Text
tier_on m rest = codes "\"tier\":" ++ (show_int m.tier ++ b'}' ∷ rest)

abbrev pub size_on : Message → Text → Text
size_on m rest =
    codes "\"current_size_bytes\":" ++ (show m.current_size_bytes ++ b',' ∷ tier_on m rest)

abbrev pub target_on : Message → Text → Text
target_on m rest = codes "\"target_bytes\":" ++ (show m.target_bytes ++ b',' ∷ size_on m rest)

abbrev pub pid_on : Message → Text → Text
pid_on m rest = codes "\"pid\":" ++ (show_int m.pid ++ b',' ∷ target_on m rest)

abbrev behind_type : MessageType → Text → Text
behind_type t rest = codes "{\"type\":\"" ++ (type_to_string t ++ (codes "\"," ++ rest))

pub serialize-layout :
    (m : Message) (rest : Text) → serialize m ++ rest ≡ behind_type m.type (pid_on m rest)
unfolding serialize
serialize-layout m rest = simp (++-assoc)

type_found :
    (t : MessageType) (rest : Text)
    → extract_string (behind_type t rest) (codes "type") ≡ type_to_string t
unfolding extract_string
type_found register rest = refl
type_found report_size rest = refl
type_found shrink rest = refl
type_found grow rest = refl
type_found ack rest = refl
type_found heartbeat rest = refl
type_found unknown rest = refl

-- No other key is in the part of the type.
abbrev Passed : Text → MessageType → Text → Type 0
Passed key t rest = find_key key (behind_type t rest) ≡ find_key key rest

passed :
    (t : MessageType) (rest : Text)
    → Passed (codes "pid") t rest
      × Passed (codes "target_bytes") t rest
      × Passed (codes "current_size_bytes") t rest
      × Passed (codes "tier") t rest
passed register rest = (refl, refl, refl, refl)
passed report_size rest = (refl, refl, refl, refl)
passed shrink rest = (refl, refl, refl, refl)
passed grow rest = (refl, refl, refl, refl)
passed ack rest = (refl, refl, refl, refl)
passed heartbeat rest = (refl, refl, refl, refl)
passed unknown rest = (refl, refl, refl, refl)

show_int-cons : (i : ℤ) → (c : ℕ) × (s : Text) × (show_int i ≡ c ∷ s)
unfolding show_int
show_int-cons (pos n) = show-cons n
show_int-cons (negsuc n) = (b'-', show (suc n), refl)

-- A field whose text is a printed number is converted.
field_read {ℓ} :
    {A : Type ℓ} (convert : Text → Result A) (initial a : A) (v : Text)
    → (c : ℕ) × (s : Text) × (v ≡ c ∷ s)
    → convert v ≡ ok a
    → number_field convert initial v ≡ ok a
field_read convert initial a v (c, s, e) h =
    ap (number_field convert initial) e ∙ ap convert (sym e) ∙ h

int_read : (i : ℤ) → IsInt i → number_field stoi (pos 0) (show_int i) ≡ ok i
int_read i h = field_read stoi (pos 0) i (show_int i) (show_int-cons i) (stoi-show_int i h)

u64_read : (n : ℕ) → n < u64 → number_field stoull 0 (show n) ≡ ok n
u64_read n h = field_read stoull 0 n (show n) (show-cons n) (stoull-show n h)

int_value :
    (i : ℤ) (c : ℕ) (rest : Text)
    → is_end c ≡ true
    → value_after (show_int i ++ c ∷ rest) ≡ show_int i
int_value i c rest h =
    let (x, s, e) = show_int-cons i in
    value_after-number (show_int i) x s c rest e (show_int-numbers i) h

u64_value : (n c : ℕ) (rest : Text) → is_end c ≡ true → value_after (show n ++ c ∷ rest) ≡ show n
u64_value n c rest h =
    let (x, s, e) = show-cons n in value_after-number (show n) x s c rest e (show-numbers n) h

abbrev pub layout : Message → Text → Text
layout m rest = behind_type m.type (pid_on m rest)

-- The text in front of `rest` holds no other quote than that of a printed number: none.
past_int : (i : ℤ) (p rest : Text) → find (b'"' ∷ p) (show_int i ++ rest) ≡ find (b'"' ∷ p) rest
past_int i p rest = find-number p (show_int i) rest (show_int-numbers i)

past_u64 : (n : ℕ) (p rest : Text) → find (b'"' ∷ p) (show n ++ rest) ≡ find (b'"' ∷ p) rest
past_u64 n p rest = find-number p (show n) rest (show-numbers n)

pid_extracted :
    (m : Message) (rest : Text) → extract_string (layout m rest) (codes "pid") ≡ show_int m.pid
pid_extracted m rest =
    extract_string-found (layout m rest) (codes "pid") (pid_on m rest)
      (show_int m.pid ++ b',' ∷ target_on m rest) (show_int m.pid) b':'
      (passed m.type (pid_on m rest)).0 refl (int_value m.pid b',' (target_on m rest) refl)

target_extracted :
    (m : Message) (rest : Text)
    → extract_string (layout m rest) (codes "target_bytes") ≡ show m.target_bytes
target_extracted m rest =
    extract_string-found (layout m rest) (codes "target_bytes") (target_on m rest)
      (show m.target_bytes ++ b',' ∷ size_on m rest) (show m.target_bytes) b':'
      ((passed m.type (pid_on m rest)).1
        ∙ past_int m.pid (codes "target_bytes\"") (b',' ∷ target_on m rest))
      refl (u64_value m.target_bytes b',' (size_on m rest) refl)

size_extracted :
    (m : Message) (rest : Text)
    → extract_string (layout m rest) (codes "current_size_bytes") ≡ show m.current_size_bytes
size_extracted m rest =
    let key = codes "current_size_bytes\"" in
    extract_string-found (layout m rest) (codes "current_size_bytes") (size_on m rest)
      (show m.current_size_bytes ++ b',' ∷ tier_on m rest) (show m.current_size_bytes) b':'
      ((passed m.type (pid_on m rest)).2
        ∙ past_int m.pid key (b',' ∷ target_on m rest)
        ∙ past_u64 m.target_bytes key (b',' ∷ size_on m rest))
      refl (u64_value m.current_size_bytes b',' (tier_on m rest) refl)

tier_extracted :
    (m : Message) (rest : Text) → extract_string (layout m rest) (codes "tier") ≡ show_int m.tier
tier_extracted m rest =
    let key = codes "tier\"" in
    extract_string-found (layout m rest) (codes "tier") (tier_on m rest)
      (show_int m.tier ++ b'}' ∷ rest) (show_int m.tier) b':'
      ((passed m.type (pid_on m rest)).3
        ∙ past_int m.pid key (b',' ∷ target_on m rest)
        ∙ past_u64 m.target_bytes key (b',' ∷ size_on m rest)
        ∙ past_u64 m.current_size_bytes key (b',' ∷ tier_on m rest))
      refl (int_value m.tier b'}' rest refl)

-- The numbers of a message are in the ranges of their C++ types.
abbrev pub InRange : Message → Type 0
InRange m = IsInt m.pid × (m.target_bytes < u64) × (m.current_size_bytes < u64) × IsInt m.tier

deserialize-layout : (m : Message) (rest : Text) → InRange m → deserialize (layout m rest) ≡ ok m
unfolding deserialize
deserialize-layout m rest (p, t, c, r) =
    >>=-ok m.pid _ _ _ (ap (number_field stoi (pos 0)) (pid_extracted m rest) ∙ int_read m.pid p) (
      >>=-ok m.target_bytes _ _ _
        (ap (number_field stoull 0) (target_extracted m rest) ∙ u64_read m.target_bytes t)
        (>>=-ok m.current_size_bytes _ _ _
          (ap (number_field stoull 0) (size_extracted m rest) ∙ u64_read m.current_size_bytes c)
          (>>=-ok m.tier _ _ _
            (ap (number_field stoi (pos 0)) (tier_extracted m rest) ∙ int_read m.tier r)
            (ap
              (λ (t : MessageType). ok (record {
                type = t;
                pid = m.pid;
                target_bytes = m.target_bytes;
                current_size_bytes = m.current_size_bytes;
                tier = m.tier;
              }))
              (ap string_to_type (type_found m.type (pid_on m rest))
                ∙ string_to_type-type_to_string m.type)))))

-- The text of a message whose process and tier are of type int and whose sizes are below 2 to the
-- 64 is read back as that message, whatever stands behind it.
pub deserialize-serialize :
    (m : Message) (rest : Text) → InRange m → deserialize (serialize m ++ rest) ≡ ok m
deserialize-serialize m rest h =
    ap deserialize (serialize-layout m rest) ∙ deserialize-layout m rest h
