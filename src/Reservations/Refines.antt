-- ===== src/Reservations/Refines.antt =====
-- Each request does to the desk's calendar what it should
-- (backend/src/modules/reservations/reservations.service.ts).
use kars_hotel.Base.{
  ℕ, ◌≡◌, refl, sym, ap, ◌∙◌, ◌≢◌, ◌⊎◌, inl, inr, Bool, true, false, Option, none, some, List, ◌==◌,
  ==_iff, arith, subst, if◌then◌else◌, In, In-map-of, Bool-cases, Option-cases,
}
use kars_hotel.Hotel.{Reservation, update_reservation}
use kars_hotel.Reservations.Exclusive.{IsExclusive, update-In}
use kars_hotel.Reservations.Calendar.{
  vacate, move, Moves, span_of, sleeps, calendar, calendar-row, calendar-some,
}

-- Only the rows of one id are written.
pub record Touches (id : ℕ) (rs rs' : List Reservation) : Type 0 where
  pub stays : (r : Reservation) → In r rs → r.id ≢ id → In r rs'
  pub came : (s : Reservation) → In s rs' → s.id ≢ id → In s rs
  pub own : (r : Reservation) → In r rs → r.id ≡ id → (n : Reservation) × In n rs' × (n.id ≡ id)

pub Touches-refl : (id : ℕ) (rs : List Reservation) → Touches id rs rs
Touches-refl id rs = record { stays = λ r i ne. i; came = λ s i ne. i; own = λ r i e. (r, i, e) }

pub Touches-trans :
    (id : ℕ) (rs ss ts : List Reservation) → Touches id rs ss → Touches id ss ts → Touches id rs ts
Touches-trans id rs ss ts p q = record {
  stays = λ r i ne. q.stays r (p.stays r i ne) ne;
  came = λ s i ne. p.came s (q.came s i ne) ne;
  own = λ r i e. let (n, j, f) = p.own r i e in q.own n j f;
}

pub update-Touches :
    (id : ℕ) (f : Reservation → Reservation) (rs : List Reservation)
    → ((r : Reservation) → (f r).id ≡ r.id)
    → Touches id rs (update_reservation id f rs)
update-Touches id f rs same = record {
  stays = λ r i ne.
      subst (λ x. In x (update_reservation id f rs)) (rw (apart r ne) refl) (In-map-of put rs r i);
  came = λ s i ne.
      let (a, j, c) = update-In id f rs s i in
      elim c [
        | inl (e, q) ↦ absurd (ne (ap (λ (x : Reservation). x.id) q ∙ same a ∙ e))
        | inr (e, q) ↦ subst (λ x. In x rs) (sym q) j
      ];
  own = λ r i e. (
    f r,
    subst (λ x. In x (update_reservation id f rs)) (rw ((==_iff r.id id).1 e) refl)
        (In-map-of put rs r i),
    same r ∙ e,
  );
}
  where
    put : Reservation → Reservation
    put x = if x.id == id then f x else x

    apart : (r : Reservation) → r.id ≢ id → (r.id == id) ≡ false
    apart r ne = elim (Bool-cases (r.id == id)) [
      | inl y ↦ absurd (ne ((==_iff r.id id).0 y))
      | inr n ↦ n
    ]

module _ (id : ℕ) (rs rs' : List Reservation) (n : Reservation) (before : IsExclusive rs)
    (after : IsExclusive rs') (there : In n rs') (named : n.id ≡ id)
    (only : (s : Reservation) → In s rs' → s.id ≡ id → s ≡ n)
    (stays : (r : Reservation) → In r rs → r.id ≢ id → In r rs')
    (came : (s : Reservation) → In s rs' → s.id ≢ id → In s rs) where
  -- Who sleeps somewhere after the write is the row of the id, or slept there before.
  sleeper :
      (room night : ℕ) (s : Reservation)
      → In s rs'
      → sleeps room night s ≡ true
      → (sleeps room night n ≡ true) ⊎ (In s rs × (s.id ≢ id))
  sleeper room night s i p = elim (Bool-cases (s.id == id)) [
    | inl y ↦ inl (ap (sleeps room night) (sym (only s i ((==_iff s.id id).0 y))) ∙ p)
    | inr m ↦
        let ne : s.id ≢ id = λ q. ground (arith, (==_iff s.id id).1 q) in inr (came s i ne, ne)
  ]

  pub only-Moves : Moves id (span_of n) (calendar rs) (calendar rs')
  unfolding move
  only-Moves = record {
    free = λ room night p. elim (Option-cases (calendar rs room night)) [
      | inl none_there ↦ inl none_there
      | inr (k, taken) ↦
          let (r, i, e, q) = calendar-row rs room night k taken in
          elim (Bool-cases (r.id == id)) [
            | inl y ↦ inr (taken ∙ ap some (sym e ∙ (==_iff r.id id).0 y))
            | inr m ↦
                let ne : r.id ≢ id = λ z. ground (arith, (==_iff r.id id).1 z) in
                absurd (
                  ne (
                    some-injective (
                      sym (calendar-some rs' room night r after (stays r i ne) q)
                      ∙ calendar-some rs' room night n after there p)
                    ∙ named))
          ]
    ];
    moved = λ room night. elim (Bool-cases (sleeps room night n)) [
      | inl p ↦ calendar-some rs' room night n after there p ∙ rw p (ap some named)
      | inr p ↦ unslept room night p ∙ sym (if-false _ _ _ p)
    ];
  }
    where
      some-injective : {a b : ℕ} → some a ≡ some b → a ≡ b
      some-injective q = cc

      if-false : (b : Bool) (x y : Option ℕ) → b ≡ false → (if b then x else y) ≡ y
      if-false b x y e = rw e refl

      other_night :
          (room night j : ℕ)
          → sleeps room night n ≡ false
          → calendar rs' room night ≡ some j
          → (j ≢ id) × (calendar rs room night ≡ some j)
      other_night room night j p taken =
          let (s, i, e, q) = calendar-row rs' room night j taken in
          elim (sleeper room night s i q) [
            | inl own ↦ absurd (ground (arith, own, p))
            | inr (old, ne) ↦
                (λ z. ne (e ∙ z), calendar-some rs room night s before old q ∙ ap some e)
          ]

      unslept :
          (room night : ℕ)
          → sleeps room night n ≡ false
          → calendar rs' room night ≡ vacate id (calendar rs room night)
      unslept room night p = elim (Option-cases (calendar rs' room night)) [
        | inr (j, taken) ↦
            let (ne, same) = other_night room night j p taken in taken ∙ rw same (kept j ne)
        | inl gone ↦ elim (Option-cases (calendar rs room night)) [
          | inl free ↦ gone ∙ rw free refl
          | inr (k, was) ↦
              let (r, i, e, q) = calendar-row rs room night k was in
              elim (Bool-cases (k == id)) [
                | inl y ↦ gone ∙ rw was (rw y refl)
                | inr m ↦
                    let ne : r.id ≢ id = λ z. ground (arith, (==_iff k id).1 (sym e ∙ z)) in
                    absurd
                      (no_row (sym gone ∙ calendar-some rs' room night r after (stays r i ne) q))
              ]
        ]
      ]
        where
          kept : (j : ℕ) → j ≢ id → some j ≡ vacate id (some j)
          kept j ne = elim (Bool-cases (j == id)) [
            | inl y ↦ absurd (ne ((==_iff j id).0 y))
            | inr m ↦ rw m refl
          ]

          no_row : {k : ℕ} → ◌≡◌ {A = Option ℕ} none (some k) → ⊥
          no_row q = cc
