-- ===== src/Value/Double.antt =====
-- The conversions between a `long long` and a `double`, whose 64 bits are a number.
use osodio.Prelude.{
  ℕ, zero, suc, ◌+◌, ◌-◌, ◌*◌, ◌/◌, ◌%◌, ◌^◌, ℤ, pos, negsuc, Bool, true, false, ◌&&◌, ◌||◌, ltb,
  leb, ◌==◌, if◌then◌else◌,
}

-- The bits of a number that 53 bits do not hold.
unfoldable pub excess : ℕ → ℕ → ℕ
excess zero n = 0
excess (suc rounds) n = let more = excess rounds (n / 2) in if ltb n (2 ^ 53) then 0 else suc more

-- The nearest `double` of a number below 2 ^ 64, and the even one of two that are as near.
unfoldable pub nearest : ℕ → ℕ
nearest n =
    let k = excess 11 n in
    let q = n / 2 ^ k in
    let r = n % 2 ^ k * 2 in
    let up = ltb (2 ^ k) r || (r == 2 ^ k && q % 2 == 1) in (if up then q + 1 else q) * 2 ^ k

abbrev signed : Bool → ℕ → ℤ
signed false n = pos n
signed true zero = pos 0
signed true (suc n) = negsuc n

-- The integer part of a `double`, without its sign.
abbrev magnitude : ℕ → ℕ
magnitude bits =
    let e = bits / 2 ^ 52 % 2 ^ 11 in
    let m = bits % 2 ^ 52 + (if e == 0 then 0 else 2 ^ 52) in
    if leb 1075 e then m * 2 ^ (e - 1075) else m / 2 ^ (1075 - (if e == 0 then 1 else e))

-- A value that a `long long` does not hold: the conversion is undefined in the source, and this is
-- what x86-64 does.
abbrev indefinite : ℤ
indefinite = negsuc (2 ^ 63 - 1)

abbrev in_long : ℤ → ℤ
in_long (pos n) = if ltb n (2 ^ 63) then pos n else indefinite
in_long (negsuc n) = if ltb n (2 ^ 63) then negsuc n else indefinite

-- `static_cast<long long>` of a `double`
unfoldable pub long_of_double : ℕ → ℤ
long_of_double bits = in_long (signed (leb (2 ^ 63) bits) (magnitude bits))

abbrev nearest_ℤ : ℤ → ℤ
nearest_ℤ (pos n) = pos (nearest n)
nearest_ℤ (negsuc n) = signed true (nearest (suc n))

-- `static_cast<long long>(double(i))`
unfoldable pub long_of_long : ℤ → ℤ
long_of_long i = in_long (nearest_ℤ i)
