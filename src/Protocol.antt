-- ===== src/Protocol.antt =====
-- The wire format between the daemon and its clients: include/governor/protocol.h.
pub mod Extract
pub mod Roundtrip
pub mod Framing
use memory_aware_governor.Base.{
  ℕ, ◌+◌, ◌*◌, ◌/◌, ◌%◌, ◌^◌, Bool, true, false, ◌||◌, Option, none, some, List, [], ◌∷◌, ◌++◌,
  ◌==◌, if◌then◌else◌, length,
}
use memory_aware_governor.Base.Int.{ℤ, pos}
use memory_aware_governor.Text.{
  Text, codes, Result, ok, throw, ◌>>=◌, text_eq, find, find_first_not_of, take_until, stoull, stoi,
  show, show_int,
}

pub data MessageType : Type 0 where
  register report_size shrink grow ack heartbeat unknown : MessageType

pub record Message : Type 0 where
  pub type : MessageType
  pub pid : ℤ
  pub target_bytes : ℕ
  pub current_size_bytes : ℕ
  pub tier : ℤ

-- The initial values of the fields.
abbrev pub empty_message : Message
empty_message = record {
  type = unknown;
  pid = pos 0;
  target_bytes = 0;
  current_size_bytes = 0;
  tier = pos 0;
}

abbrev pub type_to_string : MessageType → Text
type_to_string register = codes "REGISTER"
type_to_string report_size = codes "REPORT_SIZE"
type_to_string shrink = codes "SHRINK"
type_to_string grow = codes "GROW"
type_to_string ack = codes "ACK"
type_to_string heartbeat = codes "HEARTBEAT"
type_to_string unknown = codes "UNKNOWN"

abbrev pub string_to_type : Text → MessageType
string_to_type s =
    if text_eq s (codes "REGISTER")
    then register
    else if text_eq s (codes "REPORT_SIZE")
    then report_size
    else if text_eq s (codes "SHRINK")
    then shrink
    else if text_eq s (codes "GROW")
    then grow
    else if text_eq s (codes "ACK")
    then ack
    else if text_eq s (codes "HEARTBEAT")
    then heartbeat
    else unknown

-- The text of a message, in the order in which it is written to the stream.
unfoldable pub serialize : Message → Text
serialize m =
    codes "{"
    ++ codes "\"type\":\""
    ++ type_to_string m.type
    ++ codes "\","
    ++ codes "\"pid\":"
    ++ show_int m.pid
    ++ codes ","
    ++ codes "\"target_bytes\":"
    ++ show m.target_bytes
    ++ codes ","
    ++ codes "\"current_size_bytes\":"
    ++ show m.current_size_bytes
    ++ codes ","
    ++ codes "\"tier\":"
    ++ show_int m.tier
    ++ codes "}"

abbrev pub is_quote : ℕ → Bool
is_quote c = c == b'"'

-- The bytes of `" \t\""` and of `",}"`.
abbrev pub is_blank : ℕ → Bool
is_blank c = c == b' ' || c == 9 || c == b'"'

abbrev pub is_end : ℕ → Bool
is_end c = c == b',' || c == b'}'

abbrev pub or_empty : Option Text → Text
or_empty none = []
or_empty (some s) = s

-- The value behind the colon of a key; `s` is the text after the colon.
abbrev pub value_after : Text → Text
value_after s = elim (find_first_not_of is_blank b':' s) [
  | none ↦ []
  | some (before, start) ↦
      or_empty (take_until (λ (c : ℕ). if is_quote before then is_quote c else is_end c) start)
]

abbrev pub after_colon : Option Text → Text
after_colon none = []
after_colon (some []) = []
after_colon (some (colon ∷ s)) = value_after s

-- The text behind a key in quotes; it begins with the key.
abbrev pub find_key : Text → Text → Option Text
find_key key json = find (codes "\"" ++ key ++ codes "\"") json

-- `extract_string`: the text of the value of a key, empty if it has none.
unfoldable pub extract_string : Text → Text → Text
extract_string json key = elim (find_key key json) [
  | none ↦ []
  | some s ↦ after_colon (find (codes ":") s)
]

-- A field whose text is empty keeps its initial value.
abbrev pub number_field {ℓ} : {A : Type ℓ} → (Text → Result A) → A → Text → Result A
number_field convert initial [] = ok initial
number_field convert initial (c ∷ s) = convert (c ∷ s)

unfoldable pub deserialize : Text → Result Message
deserialize json = do
  let type = string_to_type (extract_string json (codes "type"))
  pid ← number_field stoi (pos 0) (extract_string json (codes "pid"))
  target ← number_field stoull 0 (extract_string json (codes "target_bytes"))
  size ← number_field stoull 0 (extract_string json (codes "current_size_bytes"))
  tier ← number_field stoi (pos 0) (extract_string json (codes "tier"))
  ok (record {
    type = type;
    pid = pid;
    target_bytes = target;
    current_size_bytes = size;
    tier = tier;
  })

-- The bytes of a `uint32_t` in network order.
abbrev pub htonl : ℕ → Text
htonl n = (n / 2 ^ 24) % 256 ∷ (n / 2 ^ 16) % 256 ∷ (n / 2 ^ 8) % 256 ∷ n % 256 ∷ []

-- The number of four bytes in network order, `ntohl`.
abbrev pub ntohl : ℕ → ℕ → ℕ → ℕ → ℕ
ntohl a b c d = a * 2 ^ 24 + b * 2 ^ 16 + c * 2 ^ 8 + d

-- A message behind its length.
unfoldable pub frame : Message → Text
frame m = let payload = serialize m ++ codes "\n" in htonl (length payload % 2 ^ 32) ++ payload
