-- ===== src/Scheduler/Next.antt =====
-- The next time of a cron schedule is the first minute that matches.
use mirror_sync.Base.{
  ℕ, zero, suc, ◌+◌, ◌*◌, ◌<◌, ◌≡◌, refl, ◌⊎◌, ◌↔◌, inl, inr, Bool, true, false, ==_iff, List, [],
  ◌∷◌, ◌==◌, ◌||◌, Bool-cases, arith, subst,
}
use mirror_sync.Scheduler.{
  Calendar, CronExpr, matches, has, day_match, search_minutes, first_minute, cron_next, minute,
  horizon, day,
}

-- The number is a member.
abbrev pub Among : ℕ → List ℕ → Type 0
Among n [] = ⊥
Among n (x ∷ xs) = (x ≡ n) ⊎ Among n xs

has-Among : (xs : List ℕ) (n : ℕ) → (has xs n ≡ true) ↔ Among n xs
unfolding has
has-Among [] n = (λ h. absurd (cc), λ h. absurd h)
has-Among (x ∷ xs) n =
    let rest = has-Among xs n in
    (
      λ h. elim (Bool-cases (x == n)) [
        | inl e ↦ inl ((==_iff x n).0 e)
        | inr e ↦ inr (rest.0 (ground arith))
      ],
      λ h. elim h [ inl e ↦ ground (arith, (==_iff x n).1 e) | inr m ↦ ground (arith, rest.1 m) ],
    )

-- The days by the two restrictions, of the month and of the week.
abbrev pub Restricted : Bool → Bool → Type 0 → Type 0 → Type 0
Restricted a b D W =
    ((a ≡ true) × (b ≡ true))
    ⊎ ((a ≡ true) × (b ≡ false) × W)
    ⊎ ((a ≡ false) × (b ≡ true) × D)
    ⊎ ((a ≡ false) × (b ≡ false) × (D ⊎ W))

day_match-Restricted :
    (a b d w : Bool) (D W : Type 0)
    → ((d ≡ true) ↔ D)
    → ((w ≡ true) ↔ W)
    → (day_match a b d w ≡ true) ↔ Restricted a b D W
day_match-Restricted true true d w D W p q = (λ h. inl (refl, refl), λ h. refl)
day_match-Restricted true false d w D W p q = (
  λ h. inr (inl (refl, refl, q.0 h)),
  λ h. elim h [
    | inl (x, y) ↦ absurd (ground arith)
    | inr k ↦ elim k [
      | inl (x, y, m) ↦ q.1 m
      | inr l ↦ elim l [
        | inl (x, y, m) ↦ absurd (ground arith)
        | inr (x, y, m) ↦ absurd (ground arith)
      ]
    ]
  ],
)
day_match-Restricted false true d w D W p q = (
  λ h. inr (inr (inl (refl, refl, p.0 h))),
  λ h. elim h [
    | inl (x, y) ↦ absurd (ground arith)
    | inr k ↦ elim k [
      | inl (x, y, m) ↦ absurd (ground arith)
      | inr l ↦ elim l [ inl (x, y, m) ↦ p.1 m | inr (x, y, m) ↦ absurd (ground arith) ]
    ]
  ],
)
day_match-Restricted false false d w D W p q = (
  λ h. inr (inr (inr (refl, refl, one (Bool-cases d) h))),
  λ h. elim h [
    | inl (x, y) ↦ absurd (ground arith)
    | inr k ↦ elim k [
      | inl (x, y, m) ↦ absurd (ground arith)
      | inr l ↦ elim l [
        | inl (x, y, m) ↦ absurd (ground arith)
        | inr (x, y, m) ↦ elim m [ inl n ↦ rw (p.1 n) refl | inr n ↦ ground (arith, q.1 n) ]
      ]
    ]
  ],
)
  where
    one : ((d ≡ true) ⊎ (d ≡ false)) → (d || w) ≡ true → D ⊎ W
    one (inl e) h = inl (p.0 e)
    one (inr e) h = inr (q.0 (ground arith))

module _ (cal : Calendar) (e : CronExpr) where
  -- The minute `start + i * minute` is the first of `n` that matches.
  abbrev FirstFound : ℕ → ℕ → ℕ → ℕ → Type 0
  FirstFound n start i r =
      (i < n)
      × (r ≡ start + i * minute)
      × (matches cal e r ≡ true)
      × ((j : ℕ) → j < i → matches cal e (start + j * minute) ≡ false)

  abbrev NoneFound : ℕ → ℕ → Type 0
  NoneFound n start = (j : ℕ) → j < n → matches cal e (start + j * minute) ≡ false

  search_lem :
      (n t start : ℕ)
      → ((i : ℕ) × FirstFound n start i (search_minutes cal n e t start))
        ⊎ ((search_minutes cal n e t start ≡ t + day) × NoneFound n start)
  unfolding search_minutes
  search_lem zero t start = inr (refl, λ j h. absurd (omega arith))
  search_lem (suc n) t start = elim (Bool-cases (matches cal e start)) [
    | inl m ↦
        inl (0, (omega arith, rw m (omega arith), rw m (rw m refl), λ j h. absurd (omega arith)))
    | inr m ↦ elim (search_lem n t (start + minute)) [
      | inl (i, h) ↦
          inl (suc i, (omega (arith, h.0), rw m (omega (arith, h.1)), rw m h.2, later m i h.3))
      | inr h ↦ inr (rw m h.0, later m n h.1)
    ]
  ]
    where
      later :
          matches cal e start ≡ false
          → (i : ℕ) → ((j : ℕ) → j < i → matches cal e (start + minute + j * minute) ≡ false)
          → (j : ℕ) → j < suc i
          → matches cal e (start + j * minute) ≡ false
      later m i h zero k = subst (λ x. matches cal e x ≡ false) (omega arith) m
      later m i h (suc j) k =
          subst (λ x. matches cal e x ≡ false) (omega arith) (h j (omega (arith, k)))

  -- A time that the line names: by its minute, hour and month, and by its day of the month or of
  -- the week, whichever is restricted; if both are, either will do.
  abbrev pub OnDay : ℕ → Type 0
  OnDay t =
      Restricted e.dom_any e.dow_any (Among (cal.day_of t) e.dom) (Among (cal.weekday_of t) e.dow)

  abbrev pub Due : ℕ → Type 0
  Due t =
      Among (cal.minute_of t) e.min
      × Among (cal.hour_of t) e.hour
      × Among (cal.month_of t) e.month
      × OnDay t

  day_match-OnDay :
      (t : ℕ)
      → (day_match e.dom_any e.dow_any (has e.dom (cal.day_of t)) (has e.dow (cal.weekday_of t))
          ≡ true)
        ↔ OnDay t
  day_match-OnDay t =
      day_match-Restricted e.dom_any e.dow_any (has e.dom (cal.day_of t))
        (has e.dow (cal.weekday_of t)) _ _ (has-Among e.dom (cal.day_of t))
        (has-Among e.dow (cal.weekday_of t))

  matches-Due : (t : ℕ) → (matches cal e t ≡ true) ↔ Due t
  unfolding matches
  matches-Due t =
      let m = has-Among e.min (cal.minute_of t) in
      let h = has-Among e.hour (cal.hour_of t) in
      let o = has-Among e.month (cal.month_of t) in
      let d = day_match-OnDay t in
      (
        λ k. (m.0 (ground arith), h.0 (ground arith), o.0 (ground arith), d.0 (ground arith)),
        λ k. rw (m.1 k.0, h.1 k.1, o.1 k.2, d.1 k.3) refl,
      )

  never-Due : (t : ℕ) → matches cal e t ≡ false → Due t → ⊥
  never-Due t no_match due = absurd (ground (arith, (matches-Due t).1 due))

  -- The minute `start + i * minute` is the first of `n` that the line names.
  abbrev pub FirstDue : ℕ → ℕ → ℕ → ℕ → Type 0
  FirstDue n start i r =
      (i < n) × (r ≡ start + i * minute) × Due r × ((j : ℕ) → j < i → Due (start + j * minute) → ⊥)

  abbrev pub NoneDue : ℕ → ℕ → Type 0
  NoneDue n start = (j : ℕ) → j < n → Due (start + j * minute) → ⊥

  -- The next time is later than the given one. It is the first of the minutes of 366 days, from the
  -- next full one on, that the line names; if it names none of them, the next time is a day after
  -- the given one, a time that the line does not ask for. A minute counts by the fields of its
  -- local time, so one that a clock change repeats or leaves out is met twice, or not at all.
  pub cron_next-first :
      (t : ℕ)
      → (t < cron_next cal e t)
        × (((i : ℕ) × FirstDue horizon (first_minute cal t) i (cron_next cal e t))
            ⊎ ((cron_next cal e t ≡ t + day) × NoneDue horizon (first_minute cal t)))
  unfolding cron_next
  cron_next-first t = outcome (search_lem horizon t (first_minute cal t))
    where
      outcome :
          ((i : ℕ) × FirstFound horizon
                (first_minute cal t)
                i
                (search_minutes cal horizon e t (first_minute cal t)))
            ⊎ ((search_minutes cal horizon e t (first_minute cal t) ≡ t + day)
                × NoneFound horizon (first_minute cal t))
          → (t < search_minutes cal horizon e t (first_minute cal t))
            × (((i : ℕ) × FirstDue horizon
                    (first_minute cal t)
                    i
                    (search_minutes cal horizon e t (first_minute cal t)))
                ⊎ ((search_minutes cal horizon e t (first_minute cal t) ≡ t + day)
                    × NoneDue horizon (first_minute cal t)))
      outcome (inl (i, (early, at, found, earlier))) = (
        omega (arith, at),
        inl (i, (early, at, (matches-Due _).0 found, λ j k due. never-Due _ (earlier j k) due)),
      )
      outcome (inr (at, earlier)) =
          (omega (arith, at), inr (at, λ j k due. never-Due _ (earlier j k) due))
