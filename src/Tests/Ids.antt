-- ===== src/Tests/Ids.antt =====
-- The theorems on identifiers, with a library of two ULIDs.
use manualbox.Prelude.{◌≡◌, refl, Bool, true, false, Result, ok, err, if◌then◌else◌}
use manualbox.Prelude.Text.{Text, text, text_eq}
use manualbox.Prelude.Lists.{length}
use manualbox.Id.{UlidLibrary, cut, read_ulid, parse}

two_ulids : Bool → Text
two_ulids true = text "01JQ8ZK3M4N5P6R7S8T9V0W1X2"
two_ulids false = text "00000000000000000000000000"

read_two : Text → Result Text Bool
unfolding two_ulids
read_two s =
    if text_eq s (two_ulids true)
    then ok true
    else if text_eq s (two_ulids false)
    then ok false
    else err (text "bad ULID")

length-two_ulids : (u : Bool) → length (two_ulids u) ≡ 26
unfolding two_ulids
length-two_ulids true = refl
length-two_ulids false = refl

read_two-two_ulids : (u : Bool) → read_two (two_ulids u) ≡ ok u
unfolding read_two two_ulids text_eq
read_two-two_ulids true = refl
read_two-two_ulids false = refl

abbrev two : UlidLibrary
two = record {
  Ulid = Bool;
  encode = two_ulids;
  parse_strict = read_two;
  time_of = λ u. 7;
  encode_length = length-two_ulids;
  encode_parses = read_two-two_ulids;
}

dev_parsed : parse two (text "dev_00000000000000000000000000") ≡ ok (text "dev", false)
unfolding parse cut read_ulid read_two two_ulids text_eq
dev_parsed = refl
