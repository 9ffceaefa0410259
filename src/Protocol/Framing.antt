-- ===== src/Protocol/Framing.antt =====
-- The length prefix of include/governor/protocol.h: a framed message is short, so that its length
-- fits and is read back.
use memory_aware_governor.Base.{
  ℕ, zero, suc, ◌+◌, ◌/◌, ◌%◌, ◌^◌, ◌≤◌, ◌<◌, ◌≡◌, ap, [], ◌∷◌, ◌++◌, arith, length, length-append,
  u64, ◌==◌, inl, inr, Bool-cases, ==→ne,
}
use native.Mathlib.Numerals.{unary_clauses}
use memory_aware_governor.Base.Int.{ℤ, pos, negsuc}
use memory_aware_governor.Text.{Text, codes, show_from, show, show_int}
use memory_aware_governor.Text.Number.{IsInt}
use memory_aware_governor.Protocol.{
  MessageType, register, report_size, shrink, grow, ack, heartbeat, unknown, Message,
  type_to_string, serialize, htonl, ntohl, frame,
}
use memory_aware_governor.Protocol.Roundtrip.{
  InRange, layout, serialize-layout, pid_on, target_on, size_on, tier_on,
}

-- A number of four bytes is read back from its bytes in network order.
pub ntohl-htonl :
    (n : ℕ)
    → n < 2 ^ 32
    → ntohl ((n / 2 ^ 24) % 256) ((n / 2 ^ 16) % 256) ((n / 2 ^ 8) % 256) (n % 256) ≡ n
ntohl-htonl n h = omega arith

smaller : (n k : ℕ) → n < 10 ^ suc k → n / 10 < 10 ^ k
smaller n k h = let g = simp unary_clauses at h in omega arith

length-show_from :
    (fuel k n : ℕ) (out : Text)
    → n < 10 ^ suc k
    → length (show_from fuel n out) ≤ suc k + length out
unfolding show_from
length-show_from zero k n out h = omega arith
length-show_from (suc fuel) zero n out h = elim (Bool-cases (n / 10 == 0)) [
  | inl last ↦ rw last (omega arith)
  | inr more ↦ absurd (==→ne (n / 10) 0 more (omega arith))
]
length-show_from (suc fuel) (suc k) n out h = elim (Bool-cases (n / 10 == 0)) [
  | inl last ↦ rw last (omega arith)
  | inr more ↦
      let shorter =
        length-show_from fuel k (n / 10) ((b'0' + n % 10) ∷ out) (smaller n (suc k) h) in
      rw more (omega arith)
]

length-show : (n : ℕ) → n < u64 → length (show n) ≤ 20
unfolding show
length-show n h = length-show_from (suc n) 19 n [] (omega arith)

length-show_int : (i : ℤ) → IsInt i → length (show_int i) ≤ 11
unfolding show_int show
length-show_int (pos n) h = let l = length-show_from (suc n) 9 n [] (omega arith) in omega arith
length-show_int (negsuc n) h =
    let l = length-show_from (suc (suc n)) 9 (suc n) [] (omega arith) in omega arith

length-type_to_string : (t : MessageType) → length (type_to_string t) ≤ 11
length-type_to_string register = omega arith
length-type_to_string report_size = omega arith
length-type_to_string shrink = omega arith
length-type_to_string grow = omega arith
length-type_to_string ack = omega arith
length-type_to_string heartbeat = omega arith
length-type_to_string unknown = omega arith

-- What is sent behind the length.
abbrev pub payload : Message → Text
payload m = serialize m ++ codes "\n"

length-layout : (m : Message) (rest : Text) → InRange m → length (layout m rest) ≤ 142 + length rest
length-layout m rest (p, t, c, r) =
    let type_bound = length-type_to_string m.type in
    let pid_bound = length-show_int m.pid p in
    let target_bound = length-show m.target_bytes t in
    let size_bound = length-show m.current_size_bytes c in
    let tier_bound = length-show_int m.tier r in
    let at_type = length-append (type_to_string m.type) (codes "\"," ++ pid_on m rest) in
    let at_pid = length-append (show_int m.pid) (b',' ∷ target_on m rest) in
    let at_target = length-append (show m.target_bytes) (b',' ∷ size_on m rest) in
    let at_size = length-append (show m.current_size_bytes) (b',' ∷ tier_on m rest) in
    let at_tier = length-append (show_int m.tier) (b'}' ∷ rest) in omega arith

-- The payload of a message whose numbers are in range has at most 143 bytes.
pub length-payload : (m : Message) → InRange m → length (payload m) ≤ 143
length-payload m h = rw (serialize-layout m (codes "\n")) (length-layout m (codes "\n") h)

-- The four bytes of the length.
abbrev pub header : Message → Text
header m = htonl (length (payload m))

-- A frame is the true length of its payload, in four bytes, and the payload.
pub frame-header : (m : Message) → InRange m → frame m ≡ header m ++ payload m
unfolding frame
frame-header m h =
    ap (λ (n : ℕ). htonl n ++ payload m) (small (length (payload m)) (length-payload m h))
  where
    small : (n : ℕ) → n ≤ 143 → n % 2 ^ 32 ≡ n
    small n h = omega arith

-- The frame of a message whose process and tier are of type int and whose sizes are below 2 to
-- the 64 is four bytes, which are read as the length of the payload, and the payload, of at most
-- 143 bytes: the length fits its four bytes, the buffer of the registry and the limit of the
-- client.
pub frame-length :
    (m : Message)
    → InRange m
    → (a b c d : ℕ) × (frame m ≡ a ∷ b ∷ c ∷ d ∷ payload m)
      × (ntohl a b c d ≡ length (payload m))
      × (length (payload m) ≤ 143)
frame-length m h =
    let bound = length-payload m h in
    (_, _, _, _, frame-header m h, ntohl-htonl (length (payload m)) (omega arith), bound)
