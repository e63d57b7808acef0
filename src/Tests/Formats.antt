-- ===== src/Tests/Formats.antt =====
-- The value formats and the text helpers at concrete inputs.
use linkedon_push.Common.{◌≡◌, refl, some, codes}
use linkedon_push.Wire.{split_int}
use linkedon_push.Fmt.Encode.{encode_string}
use linkedon_push.Fmt.RoundTrip.{string_value}
use linkedon_push.Tests.Samples.{roomy}

ab_encoded : encode_string roomy (codes "ab") 0 ≡ some (string_value (codes "ab"), 0)
unfolding encode_string split_int
ab_encoded = refl
