-- ===== src/Tests/Psi.antt =====
-- `parse_psi_file` of src/governor/psi_poller.cpp, with numbers in hundredths that have two digits behind
-- the point.
use memory_aware_governor.Base.{ℕ, ◌≡◌, refl, [], ◌∷◌, arith, if◌then◌else◌, ◌==◌, ◌++◌}
use memory_aware_governor.Psi.Parse.{parse_psi_file}
use memory_aware_governor.Psi.Rendered.{
  Decimal, Fields, file_text, file_data, parse_psi_file-file_text,
}
use memory_aware_governor.Text.{Text, codes, Result, ok, stoull, show_from, show, scan_digits}
use memory_aware_governor.Tests.{hundredths}

program : Unit {0}
unfolding parse_psi_file stoull show_from show
program = tt

abbrev without_point : Text → Text
without_point [] = []
without_point (c ∷ s) = let rest = without_point s in if c == b'.' then rest else c ∷ rest

-- A stand-in for `std::stod` on numbers with two digits behind the point.
abbrev pub stod : Text → Result ℕ
stod s = ok (scan_digits 0 (without_point s))

abbrev pub five : Decimal hundredths stod
five = record {
  text = codes "5.12";
  value = 512;
  plain = (refl, (refl, (refl, (refl, tt))));
  reads = refl;
}

abbrev zero_ : Decimal hundredths stod
zero_ = record {
  text = codes "0.00";
  value = 0;
  plain = (refl, (refl, (refl, (refl, tt))));
  reads = refl;
}

abbrev pub some_fields : Fields hundredths stod
some_fields = record {
  avg10 = five;
  avg60 = zero_;
  avg300 = zero_;
  total = 123456;
  in_range = omega arith;
}

abbrev pub full_fields : Fields hundredths stod
full_fields = record {
  avg10 = zero_;
  avg60 = five;
  avg300 = zero_;
  total = 7;
  in_range = omega arith;
}

rendered :
    file_text hundredths stod some_fields full_fields
    ≡ codes "some avg10=5.12 avg60=0.00 avg300=0.00 total=123456\n"
      ++ codes "full avg10=0.00 avg60=5.12 avg300=0.00 total=7\n"
unfolding program
rendered = refl

parse_psi_file-file_text_example :
    parse_psi_file hundredths stod (file_text hundredths stod some_fields full_fields)
    ≡ ok (file_data hundredths stod some_fields full_fields)
parse_psi_file-file_text_example = parse_psi_file-file_text hundredths stod some_fields full_fields
