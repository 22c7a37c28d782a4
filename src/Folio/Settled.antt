-- ===== src/Folio/Settled.antt =====
-- Bills that are settled (backend/src/modules/folio/folio.service.ts, `assertZeroBalance`).
use kars_hotel.Base.{ℕ, ◌≡◌, refl, ap, ◌∙◌, ◌≢◌, false, some, List, [], ◌∷◌, arith}
use kars_hotel.Base.Int.{ℤ, pos, negsuc, ◌-ℤ◌}
use kars_hotel.Base.Result.{ok}
use kars_hotel.Hotel.{Hotel, Folio, Charge, Payment, payment, deposit, refund, PaymentType}
use kars_hotel.Folio.Doubles.{
  Double, of_kopecks, plus, minus, to_double, over_kopeck, rounded, nearest, excess,
}
use kars_hotel.Folio.{find_folio, charged, paid, paid_step, balance, assert_zero_balance}

-- Nothing is refunded, and each charge is paid by an entry of its amount, in the order of the charges.
pub data Mirrors : List Charge → List Payment → Type 0 where
  no_lines : Mirrors [] []
  line :
      {cs : List Charge} {ps : List Payment} (c : Charge) (p : Payment)
      → p.type ≢ refund
      → p.amount ≡ c.total
      → Mirrors cs ps
      → Mirrors (c ∷ cs) (p ∷ ps)

paid_step-plus : (t : PaymentType) (x s : Double) → t ≢ refund → paid_step t x s ≡ plus s x
paid_step-plus payment x s ne = refl
paid_step-plus deposit x s ne = refl
paid_step-plus refund x s ne = absurd (ne refl)

charged-paid :
    (s : Double) (cs : List Charge) (ps : List Payment) → Mirrors cs ps → charged s cs ≡ paid s ps
unfolding charged paid
charged-paid s [] [] no_lines = refl
charged-paid s [] (p ∷ ps) m = elim m [ ]
charged-paid s (c ∷ cs) [] m = elim m [ ]
charged-paid s (c ∷ cs) (p ∷ ps) (line _ _ ne same rest) =
    let step : paid_step p.type (of_kopecks p.amount) s ≡ plus s (of_kopecks c.total) =
      paid_step-plus p.type (of_kopecks p.amount) s ne ∙ ap (λ k. plus s (of_kopecks k)) same in
    rw step (charged-paid (plus s (of_kopecks c.total)) cs ps rest)

sub_self : (x : ℤ) → x -ℤ x ≡ pos 0
unfolding ◌-ℤ◌
sub_self (pos n) = ground arith
sub_self (negsuc n) = ground arith

rounded_nothing : rounded 0 1 ≡ 0
unfolding rounded nearest excess
rounded_nothing = refl

minus_self : (x : Double) → minus x x ≡ pos 0
unfolding minus
minus_self x = ap to_double (sub_self x) ∙ ap pos rounded_nothing

over-nothing : over_kopeck (pos 0) ≡ false
unfolding over_kopeck of_kopecks rounded nearest excess
over-nothing = refl

-- A bill whose payments are as its charges, one by one and in their order, with nothing refunded, lets
-- the guest go, however the sums in doubles are rounded.
pub assert_zero_balance-Mirrors :
    (id : ℕ) (h : Hotel) (f : Folio)
    → find_folio id h.folios ≡ some f
    → Mirrors f.charges f.payments
    → assert_zero_balance id h ≡ ok tt
unfolding assert_zero_balance balance
assert_zero_balance-Mirrors id h f found m =
    let nothing : balance f ≡ pos 0 =
      ap (λ x. minus x (paid (pos 0) f.payments)) (charged-paid (pos 0) f.charges f.payments m)
      ∙ minus_self (paid (pos 0) f.payments) in
    rw found (rw nothing (rw over-nothing refl))
