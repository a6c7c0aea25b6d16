-- ===== src/Framework/Timer/Period.antt =====
-- How often a timer that is checked again and again is due.
use smart_net.Base.{
  ℕ, ◌+◌, ◌^◌, ◌≤◌, ◌<◌, true, false, List, [], ◌∷◌, leb, if◌then◌else◌, ◌≡◌, refl, arith, inl, inr,
  Bool-cases, All, ◌⊎◌, In,
}
use smart_net.Framework.Timer.{TimerObj, check, set_interval, new_timer}

-- The times of the checks at which on_timer is called.
unfoldable pub fire_times : List ℕ → TimerObj → List ℕ
fire_times [] t = []
fire_times (now ∷ l) t =
    let rest = fire_times l (check now t).1 in if (check now t).0 then now ∷ rest else rest

-- Each time is at least `d` after the one before it, the first one at least `d` after `from`.
abbrev pub Spaced : ℕ → ℕ → List ℕ → Type 0
Spaced d from [] = Unit
Spaced d from (x ∷ l) = (from + d ≤ x) × Spaced d x l

abbrev pub Rising : ℕ → List ℕ → Type 0
Rising from [] = Unit
Rising from (x ∷ l) = (from ≤ x) × Rising x l

-- Whether a timer that is due after `d` was so at `x`, or less than `d` before.
abbrev pub Recent : ℕ → ℕ → List ℕ → Type 0
Recent d x fired = (f : ℕ) × In f fired × (f ≤ x) × ((x ≡ f) ⊎ (x < f + d))

abbrev pub Fits : ℕ → List ℕ → Type 0
Fits d l = All (λ x. x + d < 2 ^ 64) l

module _ (d : ℕ) where
  abbrev at_time : ℕ → TimerObj
  at_time from = record { last_time = from; interval = d }

  check_due :
      (from now : ℕ)
      → 0 < from
      → from + d < 2 ^ 64
      → from + d ≤ now
      → check now (at_time from) ≡ (true, at_time now)
  unfolding check
  check_due from now p b h = ground arith

  check_early :
      (from now : ℕ)
      → 0 < from
      → from + d < 2 ^ 64
      → now < from + d
      → check now (at_time from) ≡ (false, at_time from)
  unfolding check
  check_early from now p b h = ground arith

  recent-cons : (x f : ℕ) (l : List ℕ) → Recent d x l → Recent d x (f ∷ l)
  recent-cons x f l (g, here, r, q) = (g, inr here, r, q)

  recent-self : (x : ℕ) (l : List ℕ) → Recent d x (x ∷ l)
  recent-self x l = (x, inl refl, omega arith, inl refl)

  recent-head : (x f : ℕ) (l : List ℕ) → f ≤ x → x < f + d → Recent d x (f ∷ l)
  recent-head x f l a b = (f, inl refl, a, inr b)

  Rising-from : (from now : ℕ) (l : List ℕ) → from ≤ now → Rising now l → Rising from l
  Rising-from from now [] h r = tt
  Rising-from from now (x ∷ l) h r = (omega (arith, r.0), r.1)

  running :
      (l : List ℕ) (from : ℕ)
      → 0 < from
      → from + d < 2 ^ 64
      → Rising from l
      → Fits d l
      → Spaced d from (fire_times l (at_time from))
        × ((x : ℕ) → In x (from ∷ l) → Recent d x (from ∷ fire_times l (at_time from)))
  unfolding fire_times
  running [] from p b r f =
      (tt, λ x h. elim h [ inl e ↦ rw e (recent-self from []) | inr n ↦ absurd n ])
  running (now ∷ l) from p b r f = elim (Bool-cases (leb (from + d) now)) [
    | inl due ↦
        let (s, v) = running l now (omega (arith, r.0)) (f.0) (r.1) (f.1) in
        rw (check_due from now p b (ground arith)) (
          (ground arith, s),
          λ x h. elim h [
            | inl e ↦ rw e (recent-self from (now ∷ fire_times l (at_time now)))
            | inr later ↦ recent-cons x from (now ∷ fire_times l (at_time now)) (v x later)
          ],
        )
    | inr early ↦
        let (s, v) = running l from p b (Rising-from from now l (r.0) (r.1)) (f.1) in
        rw (check_early from now p b (ground arith)) (
          s,
          λ x h. elim h [
            | inl e ↦ rw e (recent-self from (fire_times l (at_time from)))
            | inr (inl e) ↦
                rw e (recent-head now from (fire_times l (at_time from)) (r.0) (ground arith))
            | inr (inr later) ↦ v x (inr later)
          ],
        )
  ]

  -- A timer is due at its first check; from then on, with checks in the order of time and no
  -- overflow, two times at which it is due are at least its interval apart, and at each check it is
  -- due or was so less than its interval before.
  pub fire_times_lem :
      (now : ℕ) (l : List ℕ)
      → 0 < now
      → Rising now l
      → Fits d (now ∷ l)
      → (fired : List ℕ) × (fire_times (now ∷ l) (set_interval d new_timer) ≡ now ∷ fired)
        × Spaced d now fired
        × ((x : ℕ) → In x (now ∷ l) → Recent d x (now ∷ fired))
  unfolding fire_times check
  fire_times_lem now l p r f =
      let (s, v) = running l now p (f.0) r (f.1) in (fire_times l (at_time now), refl, s, v)
