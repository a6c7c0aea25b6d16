-- ===== src/Rmp/Sender/Recvers.antt =====
-- The map of the receivers that a sender knows, m_mapRecvers.
use smart_net.Base.{
  ℕ, zero, suc, ◌≤◌, inl, inr, [], ◌∷◌, arith, ltb, ◌==◌, if◌then◌else◌, ◌≡◌, refl, ap, sym, ◌∙◌,
  true, false, Bool-cases, All, sub64,
}
use smart_net.Rmp.Sender.{
  RecverInfo, Recvers, is_known, change, insert_at, no_info, modify, first_recved, scan_recvers,
}

-- The oldest number after one more receiver that stays.
abbrev pub lower : ℕ → RecverInfo → ℕ
lower o i = if ltb i.last_recved o then i.last_recved else o

module _ (P : ℕ × RecverInfo → Type 0) where
  change-All :
      (id : ℕ) (f : RecverInfo → RecverInfo)
      → ((j : ℕ) (i : RecverInfo) → P (j, i) → P (j, f i))
      → (m : Recvers) → All P m
      → All P (change id f m)
  unfolding change
  change-All id f keep [] a = tt
  change-All id f keep ((j, i) ∷ m) (a, all) = elim (Bool-cases (j == id)) [
    | inl same ↦ rw same (keep j i a, all)
    | inr ne ↦ rw ne (a, change-All id f keep m all)
  ]

  insert_at-All :
      (n : ℕ) (e : ℕ × RecverInfo) (m : Recvers) → P e → All P m → All P (insert_at n e m)
  unfolding insert_at
  insert_at-All zero e m p all = (p, all)
  insert_at-All (suc n) e [] p all = (p, tt)
  insert_at-All (suc n) e (x ∷ m) p (a, all) = (a, insert_at-All n e m p all)

  -- What holds of every entry still does when one is changed or made.
  pub modify-All :
      (place : ℕ → Recvers → ℕ) (id : ℕ) (f : RecverInfo → RecverInfo)
      → ((j : ℕ) (i : RecverInfo) → P (j, i) → P (j, f i))
      → P (id, f no_info)
      → (m : Recvers) → All P m
      → All P (modify place id f m)
  unfolding modify
  modify-All place id f keep new m all = elim (Bool-cases (is_known id m)) [
    | inl known ↦ rw known (change-All id f keep m all)
    | inr unknown ↦ rw unknown (insert_at-All (place id m) (id, f no_info) m new all)
  ]

  pub scan_recvers-All :
      (now max o : ℕ) (m : Recvers) → All P m → All P (scan_recvers now max o m).0
  unfolding scan_recvers
  scan_recvers-All now max o [] a = tt
  scan_recvers-All now max o ((j, i) ∷ m) (a, all) =
      elim (Bool-cases (ltb max (sub64 now i.last_update))) [
        | inl silent ↦ rw silent (scan_recvers-All now max o m all)
        | inr alive ↦ rw alive (a, scan_recvers-All now max (lower o i) m all)
      ]

  pub first_recved-All :
      (n : ℕ)
      → ((e : ℕ × RecverInfo) → P e → e.1.last_recved ≤ n)
      → (m : Recvers) → All P m
      → first_recved m ≤ n
  unfolding first_recved
  first_recved-All n h [] a = omega arith
  first_recved-All n h (e ∷ m) (a, all) = h e a

pub scan_recvers-le : (now max o : ℕ) (m : Recvers) → (scan_recvers now max o m).1 ≤ o
unfolding scan_recvers
scan_recvers-le now max o [] = omega arith
scan_recvers-le now max o ((j, i) ∷ m) = elim (Bool-cases (ltb max (sub64 now i.last_update))) [
  | inl silent ↦ rw silent (scan_recvers-le now max o m)
  | inr alive ↦ rw alive (ground (arith, scan_recvers-le now max (lower o i) m))
]

-- Nobody who stays has acknowledged less.
pub scan_recvers-oldest :
    (now max o : ℕ) (m : Recvers)
    → All (λ e. (scan_recvers now max o m).1 ≤ e.1.last_recved) (scan_recvers now max o m).0
unfolding scan_recvers
scan_recvers-oldest now max o [] = tt
scan_recvers-oldest now max o ((j, i) ∷ m) = elim (Bool-cases (ltb max (sub64 now i.last_update))) [
  | inl silent ↦ rw silent (scan_recvers-oldest now max o m)
  | inr alive ↦ rw alive (
    ground (arith, scan_recvers-le now max (lower o i) m),
    scan_recvers-oldest now max (lower o i) m,
  )
]

-- The receivers that were heard within the interval.
abbrev pub heard_within : (now max : ℕ) → Recvers → Recvers
heard_within now max [] = []
heard_within now max ((j, i) ∷ m) =
    let rest = heard_within now max m in
    if ltb max (sub64 now i.last_update) then rest else ((j, i) ∷ rest)

pub scan_recvers-heard_within :
    (now max o : ℕ) (m : Recvers) → (scan_recvers now max o m).0 ≡ heard_within now max m
unfolding scan_recvers
scan_recvers-heard_within now max o [] = refl
scan_recvers-heard_within now max o ((j, i) ∷ m) =
    elim (Bool-cases (ltb max (sub64 now i.last_update))) [
      | inl silent ↦ rw silent (scan_recvers-heard_within now max o m)
      | inr alive ↦
          rw alive (ap (λ l. (j, i) ∷ l) (scan_recvers-heard_within now max (lower o i) m))
    ]

-- What all who stay have, and the first number too, is not above the oldest number.
pub scan_recvers-greatest :
    (n now max o : ℕ) (m : Recvers)
    → n ≤ o
    → All (λ e. n ≤ e.1.last_recved) (heard_within now max m)
    → n ≤ (scan_recvers now max o m).1
unfolding scan_recvers
scan_recvers-greatest n now max o [] le all = le
scan_recvers-greatest n now max o ((j, i) ∷ m) le all =
    elim (Bool-cases (ltb max (sub64 now i.last_update))) [
      | inl silent ↦ rw silent (scan_recvers-greatest n now max o m le (rw silent at all))
      | inr alive ↦
          let (here, rest) = rw alive at all in
          rw alive (scan_recvers-greatest n now max (lower o i) m (ground (arith, le, here)) rest)
    ]

-- What is known of a receiver.
abbrev pub info : ℕ → Recvers → RecverInfo
info id [] = no_info
info id ((j, i) ∷ m) = if j == id then i else info id m

change-info :
    (id k : ℕ) (f : RecverInfo → RecverInfo) (m : Recvers)
    → is_known id m ≡ true
    → info k (change id f m) ≡ (if k == id then f (info k m) else info k m)
unfolding change is_known
change-info id k f [] h = absurd (grind (arith, h))
change-info id k f ((j, i) ∷ m) h = elim (Bool-cases (j == id)) [
  | inl same ↦ elim (Bool-cases (j == k)) [
    | inl here ↦
        let both : (k == id) ≡ true = ground (arith, same, here) in rw same (rw here (rw both refl))
    | inr there ↦
        let apart : (k == id) ≡ false = ground (arith, same, there) in
        rw same (rw there (rw apart refl))
  ]
  | inr ne ↦ elim (Bool-cases (j == k)) [
    | inl here ↦
        let apart : (k == id) ≡ false = ground (arith, ne, here) in rw ne (rw here (rw apart refl))
    | inr there ↦ rw ne (rw there (change-info id k f m (rw ne at h)))
  ]
]

unknown-info : (id : ℕ) (m : Recvers) → is_known id m ≡ false → info id m ≡ no_info
unfolding is_known
unknown-info id [] h = refl
unknown-info id ((j, i) ∷ m) h = elim (Bool-cases (j == id)) [
  | inl same ↦ absurd (grind (arith, rw same at h))
  | inr ne ↦ rw ne (unknown-info id m (rw ne at h))
]

insert_here :
    (id k : ℕ) (new : RecverInfo) (m : Recvers)
    → info k ((id, new) ∷ m) ≡ (if k == id then new else info k m)
insert_here id k new m = elim (Bool-cases (id == k)) [
  | inl here ↦ let both : (k == id) ≡ true = ground (arith, here) in rw here (rw both refl)
  | inr there ↦ let apart : (k == id) ≡ false = ground (arith, there) in rw there (rw apart refl)
]

fresh_info :
    (id k : ℕ) (f : RecverInfo → RecverInfo) (m : Recvers)
    → info id m ≡ no_info
    → (if k == id then f no_info else info k m) ≡ (if k == id then f (info k m) else info k m)
fresh_info id k f m e = elim (Bool-cases (k == id)) [
  | inl same ↦
      let here : k ≡ id = ground (arith, same) in rw same (ap f (sym (ap (λ n. info n m) here ∙ e)))
  | inr apart ↦ rw apart refl
]

insert_at-info :
    (n id k : ℕ) (new : RecverInfo) (m : Recvers)
    → is_known id m ≡ false
    → info k (insert_at n (id, new) m) ≡ (if k == id then new else info k m)
unfolding insert_at is_known
insert_at-info zero id k new m h = insert_here id k new m
insert_at-info (suc n) id k new [] h = insert_here id k new []
insert_at-info (suc n) id k new ((j, i) ∷ m) h = elim (Bool-cases (j == id)) [
  | inl same ↦ absurd (grind (arith, rw same at h))
  | inr ne ↦ elim (Bool-cases (j == k)) [
    | inl here ↦ let apart : (k == id) ≡ false = ground (arith, ne, here) in rw here (rw apart refl)
    | inr there ↦ rw there (insert_at-info n id k new m (rw ne at h))
  ]
]

-- One entry is changed, or made of the default one, and no other.
pub modify-info :
    (place : ℕ → Recvers → ℕ) (id k : ℕ) (f : RecverInfo → RecverInfo) (m : Recvers)
    → info k (modify place id f m) ≡ (if k == id then f (info k m) else info k m)
unfolding modify
modify-info place id k f m = elim (Bool-cases (is_known id m)) [
  | inl known ↦ rw (known, modify) (change-info id k f m known)
  | inr unknown ↦
      rw (unknown, modify)
        (insert_at-info (place id m) id k (f no_info) m unknown
          ∙ fresh_info id k f m (unknown-info id m unknown))
]
