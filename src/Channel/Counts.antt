-- ===== src/Channel/Counts.antt =====
-- The counts of ServerIM/model/channel.go: the number of a user's connections and, above the low 16
-- bits, how many of them are online.
use im_service_modify.Prelude.{
  ◌-◌, ◌&&◌, ◌==◌, if◌then◌else◌, ◌+◌, arith, ◌*◌, ◌^◌, ◌<◌, ◌/◌, ◌%◌, ℕ, ◌≡◌,
}

unfoldable pub total_count : ℕ → ℕ
total_count count = count % 2 ^ 16

unfoldable pub online_count : ℕ → ℕ
online_count count = (count / 2 ^ 16) % 2 ^ 16

-- The bit 0 of a `|` with a number of one bit.
abbrev or_bit : ℕ → ℕ → ℕ
or_bit a b = if b == 1 && a % 2 == 0 then a + 1 else a

-- `c2<<16 | c1` of 64 bits, for `c1` up to 65536.
unfoldable pub pack : ℕ → ℕ → ℕ
pack c2 c1 = (or_bit c2 (c1 / 2 ^ 16) * 2 ^ 16 + c1 % 2 ^ 16) % 2 ^ 64

pub total_count-pack : (c2 c1 : ℕ) → c2 < 2 ^ 16 → c1 < 2 ^ 16 → total_count (pack c2 c1) ≡ c1
unfolding total_count pack
total_count-pack c2 c1 h g = ground arith

pub online_count-pack : (c2 c1 : ℕ) → c2 < 2 ^ 16 → c1 < 2 ^ 16 → online_count (pack c2 c1) ≡ c2
unfolding online_count pack
online_count-pack c2 c1 h g = ground arith

pub total_count-bound : (n : ℕ) → total_count n < 2 ^ 16
unfolding total_count
total_count-bound n = omega arith

pub online_count-bound : (n : ℕ) → online_count n < 2 ^ 16
unfolding online_count
online_count-bound n = omega arith

-- Adding the 64-bit -1.
pub minus_one : (x : ℕ) → 0 < x → x < 2 ^ 16 → (x + (2 ^ 64 - 1)) % 2 ^ 64 ≡ x - 1
minus_one x h g = omega arith
