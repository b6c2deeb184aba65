-- ===== src/Db/Table/Laws.antt =====
-- The laws of find and put.
use podcast_backend.Prelude.{
  ℕ, String, true, false, none, some, List, [], ◌∷◌, eq_iff, ◌≡◌, refl, sym, ◌∙◌, subst, ◌⊎◌, inl,
  inr, arith, In, Bool-cases, if◌then◌else◌,
}
use podcast_backend.Db.Table.{Keyed, at, find, put, Unique}

module _ {R : Type 0} ⦃k : Keyed R⦄ where
  pub at_self : (r : R) → at (k.user r) (k.name r) r ≡ true
  at_self r = ground (arith, eq_iff (k.name r) (k.name r))

  pub at-eq : (u : ℕ) (n : String) (r : R) → at u n r ≡ true → (k.user r ≡ u) × (k.name r ≡ n)
  at-eq u n r h = ground (arith, eq_iff (k.name r) n)

  -- A read after a write: the row written under its own key, and any other key as before.
  pub find-put :
      (u : ℕ) (n : String) (r : R) (t : List R)
      → find u n (put r t) ≡ (if at u n r then some r else find u n t)
  unfolding find put
  find-put u n r [] = refl
  find-put u n r (x ∷ xs) = ground (
    arith,
    find-put u n r xs,
    eq_iff (k.name r) n,
    eq_iff (k.name x) (k.name r),
    eq_iff (k.name x) n,
  )

  pub In-put : (r x : R) (t : List R) → In x (put r t) → (x ≡ r) ⊎ In x t
  unfolding put
  In-put r x [] (inl e) = inl e
  In-put r x [] (inr h) = elim h [ ]
  In-put r x (y ∷ ys) h = elim (Bool-cases (at (k.user r) (k.name r) y)) [
    | inl e ↦ elim (rw e at h) [ inl q ↦ inl q | inr q ↦ inr (inr q) ]
    | inr e ↦ elim (rw e at h) [
      | inl q ↦ inr (inl q)
      | inr q ↦ elim (In-put r x ys q) [ inl a ↦ inl a | inr b ↦ inr (inr b) ]
    ]
  ]

  pub put-In : (r : R) (t : List R) → In r (put r t)
  unfolding put
  put-In r [] = inl refl
  put-In r (y ∷ ys) = elim (Bool-cases (at (k.user r) (k.name r) y)) [
    | inl e ↦ rw e (inl refl)
    | inr e ↦ rw e (inr (put-In r ys))
  ]

  -- A row under another key stays.
  pub put-In_ne :
      (r x : R) (t : List R) → In x t → at (k.user r) (k.name r) x ≡ false → In x (put r t)
  unfolding put
  put-In_ne r x [] h d = elim h [ ]
  put-In_ne r x (y ∷ ys) (inl e) d =
      rw (subst (λ z. at (k.user r) (k.name r) z ≡ false) e d) (inl e)
  put-In_ne r x (y ∷ ys) (inr h) d = elim (Bool-cases (at (k.user r) (k.name r) y)) [
    | inl e ↦ rw e (inr h)
    | inr e ↦ rw e (inr (put-In_ne r x ys h d))
  ]

  pub find-In : (u : ℕ) (n : String) (r : R) (t : List R) → find u n t ≡ some r → In r t
  unfolding find
  find-In u n r [] h = ground arith
  find-In u n r (x ∷ xs) h = elim (Bool-cases (at u n x)) [
    | inl e ↦ inl (ground arith)
    | inr e ↦ inr (find-In u n r xs (rw e at h))
  ]

  -- What is found has the key that was asked for.
  pub find-at : (u : ℕ) (n : String) (r : R) (t : List R) → find u n t ≡ some r → at u n r ≡ true
  unfolding find
  find-at u n r [] h = ground arith
  find-at u n r (x ∷ xs) h = elim (Bool-cases (at u n x)) [
    | inl e ↦ ground arith
    | inr e ↦ find-at u n r xs (rw e at h)
  ]

  -- A write keeps the primary key.
  pub put-Unique : (r : R) (t : List R) → Unique t → Unique (put r t)
  unfolding put find
  put-Unique r [] h = (refl, tt)
  put-Unique r (x ∷ xs) h = elim (Bool-cases (at (k.user r) (k.name r) x)) [
    | inl e ↦
        let (eu, en) = at-eq (k.user r) (k.name r) x e in
        rw e (
          subst (λ u. find u (k.name r) xs ≡ none) eu
              (subst (λ n. find (k.user x) n xs ≡ none) en h.0),
          h.1,
        )
    | inr e ↦ rw e (fresh e, put-Unique r xs h.1)
  ]
    where
      fresh : at (k.user r) (k.name r) x ≡ false → find (k.user x) (k.name x) (put r xs) ≡ none
      fresh e =
          find-put (k.user x) (k.name x) r xs
          ∙ ground (arith, h.0, eq_iff (k.name r) (k.name x), eq_iff (k.name x) (k.name r))

  -- Where the key is primary, a row of the table is what a read by its key returns.
  pub In-find : (r : R) (t : List R) → Unique t → In r t → find (k.user r) (k.name r) t ≡ some r
  unfolding find
  In-find r [] h i = elim i [ ]
  In-find r (x ∷ xs) h (inl e) =
      subst (λ y. find (k.user y) (k.name y) (x ∷ xs) ≡ some y) (sym e) (rw (at_self x))
  In-find r (x ∷ xs) h (inr i) =
      ground (arith, In-find r xs h.1 i, h.0, eq_iff (k.name x) (k.name r))
