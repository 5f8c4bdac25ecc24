-- ===== src/Json/Examples.antt =====
-- Numbers beyond 53 bits, as encoding/json writes them after it read them as float64.
use go_dota.Base.{◌≡◌, refl}
use go_dota.Json.Floats.{reprinted, unless_exact, shortest, nearest, excess, round_bits}

one_bit_more : reprinted 9007199254740993 ≡ 9007199254740992
unfolding reprinted unless_exact shortest nearest excess round_bits
one_bit_more = refl

nineteen_digits : reprinted 1234567890123456789 ≡ 1234567890123456800
unfolding reprinted unless_exact shortest nearest excess round_bits
nineteen_digits = refl

-- The largest int64 becomes a number that no int64 holds.
largest_int64 : reprinted 9223372036854775807 ≡ 9223372036854776000
unfolding reprinted unless_exact shortest nearest excess round_bits
largest_int64 = refl
