-- ===== src/Folio/Doubles.antt =====
-- The numbers of JavaScript that backend/src/modules/folio/folio.service.ts adds: doubles, rounded to
-- the nearest with 53 binary digits, a tie to the even one. A double is kept as a number of units of
-- 2 ^ -59: no amount in whole kopecks but 0 is nearer to 0 than 0.01, and the last digit of 0.01 is
-- such a unit, so every sum and difference of amounts is a whole number of them.
use kars_hotel.Base.{ℕ, zero, suc, ◌+◌, ◌-◌, ◌*◌, ◌/◌, ◌%◌, ◌^◌, Bool, ltb, if◌then◌else◌}
use kars_hotel.Base.Int.{ℤ, pos, negsuc, ◌+ℤ◌, ◌-ℤ◌, ltb_ℤ}

abbrev pub Double : Type 0
Double = ℤ

-- The binary digits of a number above the first 53, on fuel: 200 is enough below 2 ^ 253 units, which
-- is over 10 ^ 58 roubles.
unfoldable pub excess : ℕ → ℕ → ℕ
excess zero n = 0
excess (suc fuel) n = let more = excess fuel (n / 2) in if ltb n (2 ^ 53) then 0 else suc more

-- `m / d` to the nearest whole number, a tie to the even one.
unfoldable pub nearest : ℕ → ℕ → ℕ
nearest m d =
    let q = m / d in
    let r = 2 * (m % d) in if ltb r d then q else if ltb d r then q + 1 else q + q % 2

-- `m / d` as a double.
unfoldable pub rounded : ℕ → ℕ → ℕ
rounded m d = let step = 2 ^ excess 200 (m / d) in nearest m (d * step) * step

abbrev pub to_double : ℤ → Double
to_double (pos n) = pos (rounded n 1)
to_double (negsuc n) = negsuc (rounded (suc n) 1 - 1)

-- `Number('12.34')` for a number of kopecks.
unfoldable pub of_kopecks : ℕ → Double
of_kopecks k = pos (rounded (k * 2 ^ 59) 100)

unfoldable pub plus : Double → Double → Double
plus x y = to_double (x +ℤ y)

unfoldable pub minus : Double → Double → Double
minus x y = to_double (x -ℤ y)

-- `x > 0.01`
unfoldable pub over_kopeck : Double → Bool
over_kopeck x = ltb_ℤ (of_kopecks 1) x
