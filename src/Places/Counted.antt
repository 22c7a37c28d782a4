-- ===== src/Places/Counted.antt =====
-- How many places a room has taken: the set of `allocatePlace`
-- (backend/src/modules/reservations/room-places.ts, lines 36 to 57), whose size the code compares.
use kars_hotel.Base.{
  ℕ, zero, suc, ◌+◌, ◌≤◌, ◌<◌, ◌≡◌, refl, Bool, true, false, List, [], ◌∷◌, ◌&&◌, leb, arith,
  contains, insert, length, every, max, if◌then◌else◌,
}
use kars_hotel.Places.{PlaceHolder, places_of, take_span, taken_places}

-- How many of the `r` places from `p` are taken.
unfoldable pub hits : ℕ → ℕ → List ℕ → ℕ
hits zero p taken = 0
hits (suc r) p taken = (if contains p taken then 1 else 0) + hits r (p + 1) taken

pub hits-nil : (r p : ℕ) → hits r p [] ≡ 0
unfolding hits
hits-nil zero p = refl
hits-nil (suc r) p = omega (arith, hits-nil r (p + 1))

hits-cons-out : (r p x : ℕ) (taken : List ℕ) → x < p → hits r p (x ∷ taken) ≡ hits r p taken
unfolding hits
hits-cons-out zero p x taken lt = refl
hits-cons-out (suc r) p x taken lt = ground (arith, hits-cons-out r (p + 1) x taken)

hits-cons-in :
    (r p x : ℕ) (taken : List ℕ)
    → p ≤ x
    → x < p + r
    → contains x taken ≡ false
    → hits r p (x ∷ taken) ≡ suc (hits r p taken)
unfolding hits
hits-cons-in zero p x taken lo hi new = absurd (omega arith)
hits-cons-in (suc r) p x taken lo hi new =
    ground (arith, hits-cons-in r (p + 1) x taken, hits-cons-out r (p + 1) x taken)

-- The set has as many numbers as there are places of the room in it.
unfoldable pub IsCounted : ℕ → List ℕ → Type 0
IsCounted c taken = hits c 1 taken ≡ length taken

insert-IsCounted :
    (c x : ℕ) (taken : List ℕ)
    → 1 ≤ x
    → x < 1 + c
    → IsCounted c taken
    → IsCounted c (insert x taken)
unfolding IsCounted
insert-IsCounted c x taken lo hi h = ground (arith, h, hits-cons-in c 1 x taken lo hi)

take_span-IsCounted :
    (c n start : ℕ) (taken : List ℕ)
    → 1 ≤ start
    → start + n ≤ suc c
    → IsCounted c taken
    → IsCounted c (take_span n start taken)
unfolding take_span
take_span-IsCounted c zero start taken lo hi h = h
take_span-IsCounted c (suc n) start taken lo hi h =
    take_span-IsCounted c n (start + 1) (insert start taken) (omega arith) (omega (arith, hi))
      (insert-IsCounted c start taken lo (omega (arith, hi)) h)

-- All the places of a booking are places of a room with `capacity` places.
abbrev pub lies_within : ℕ → PlaceHolder → Bool
lies_within capacity o =
    leb 1 o.place_number && leb (o.place_number + max 1 (o.adults + o.children)) (suc capacity)

pub taken_places-IsCounted :
    (c : ℕ) (os : List PlaceHolder) (taken : List ℕ)
    → every (lies_within c) os ≡ true
    → IsCounted c taken
    → IsCounted c (taken_places c os taken)
unfolding taken_places places_of
taken_places-IsCounted c [] taken w h = h
taken_places-IsCounted c (o ∷ os) taken w h =
    taken_places-IsCounted c os (take_span (max 1 (o.adults + o.children)) o.place_number taken)
      (ground arith)
      (take_span-IsCounted c (max 1 (o.adults + o.children)) o.place_number taken (ground arith)
        (ground arith) h)
