-- ===== src/Tests/Protocol.antt =====
-- include/governor/protocol.h at concrete messages.
use memory_aware_governor.Base.{ℕ, ◌≡◌, ◌≤◌, refl, ◌∷◌, ◌++◌, arith, length}
use memory_aware_governor.Base.Int.{pos, negsuc}
use memory_aware_governor.Text.{
  codes, ok, throw, out_of_range, invalid_argument, stoull, stoi, show_from, show, show_int,
}
use memory_aware_governor.Protocol.{
  Message, register, shrink, empty_message, serialize, extract_string, deserialize, frame, ntohl,
}
use memory_aware_governor.Protocol.Framing.{payload, frame-length}
use memory_aware_governor.Protocol.Roundtrip.{InRange, deserialize-serialize}

program : Unit {0}
unfolding stoull stoi show_from show show_int serialize extract_string deserialize frame
program = tt

abbrev hello : Message
hello = record {
  type = register;
  pid = pos 4711;
  target_bytes = 0;
  current_size_bytes = 25600;
  tier = negsuc 0;
}

hello-InRange : InRange hello
hello-InRange = (omega arith, omega arith, omega arith, omega arith)

printed :
    serialize hello
    ≡ codes
        "{\"type\":\"REGISTER\",\"pid\":4711,\"target_bytes\":0,\"current_size_bytes\":25600,\"tier\":-1}"
unfolding program
printed = refl

-- Spaces are passed over, and a missing field keeps its initial value.
spaced :
    deserialize (codes "{ \"type\": \"SHRINK\", \"target_bytes\": 512 }")
    ≡ ok (record empty_message { type = shrink; target_bytes = 512 })
unfolding program
spaced = refl

too_large : deserialize (codes "{\"pid\":2147483648}") ≡ throw out_of_range
unfolding program
too_large = refl

no_number : deserialize (codes "{\"tier\":x}") ≡ throw invalid_argument
unfolding program
no_number = refl

deserialize-serialize_example : deserialize (serialize hello ++ codes "\n") ≡ ok hello
deserialize-serialize_example = deserialize-serialize hello (codes "\n") hello-InRange

frame-length_example :
    (a b c d : ℕ) × (frame hello ≡ a ∷ b ∷ c ∷ d ∷ payload hello)
    × (ntohl a b c d ≡ length (payload hello))
    × (length (payload hello) ≤ 143)
frame-length_example = frame-length hello hello-InRange
