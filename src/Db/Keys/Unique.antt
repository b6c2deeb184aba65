-- ===== src/Db/Keys/Unique.antt =====
-- The primary key: no two rows agree on it.
use podcast_backend.Prelude.{
  Bool, true, false, Option, none, some, List, [], ◌∷◌, map, ◌≡◌, ◌≢◌, refl, sym, ap, ◌∙◌, inl, inr,
  subst, In, not, select, if◌then◌else◌, Bool-cases, some-inj,
}
use podcast_backend.Db.Keys.{Key, get, remove, modify}
use podcast_backend.Db.Keys.Laws.{get-select, get-modify, get-map}

some-none : {A : Type 0} {a : A} → some a ≡ none → ⊥
some-none e = cc

module _ (K : Type 0) {R : Type 0} ⦃k : Key K R⦄ where
  abbrev pub Unique : List R → Type 0
  Unique [] = Unit
  Unique (r ∷ rs) = (get (k.key r) rs ≡ none) × Unique rs

  -- A read finds a row of the table.
  pub get-In : (i : K) (rows : List R) (r : R) → get i rows ≡ some r → In r rows
  unfolding get
  get-In i [] r e = absurd (cc)
  get-In i (x ∷ xs) r e = elim (Bool-cases (k.same (k.key x) i)) [
    | inl t ↦ inl (sym (some-inj (rw t at e)))
    | inr f ↦ inr (get-In i xs r (rw f at e))
  ]

  pub In-get-some : (r : R) (rows : List R) → In r rows → get (k.key r) rows ≢ none
  unfolding get
  In-get-some r [] i e = elim i [ ]
  In-get-some r (x ∷ xs) (inl q) e =
      absurd
        (at (k.same (k.key x) (k.key r)) ((k.same_iff (k.key x) (k.key r)).1 (ap k.key (sym q))) e)
    where
      at : (b : Bool) → b ≡ true → (if b then some x else get (k.key r) xs) ≡ none → ⊥
      at true t e = cc
      at false t e = cc
  In-get-some r (x ∷ xs) (inr i) e = elim (Bool-cases (k.same (k.key x) (k.key r))) [
    | inl t ↦ absurd (some-none (rw t at e))
    | inr f ↦ In-get-some r xs i (rw f at e)
  ]

  -- Under the primary key, a row is the one that its key reads.
  pub In-get : (r : R) (rows : List R) → Unique rows → In r rows → get (k.key r) rows ≡ some r
  unfolding get
  In-get r [] u i = elim i [ ]
  In-get r (x ∷ xs) u (inl q) =
      rw ((k.same_iff (k.key x) (k.key r)).1 (ap k.key (sym q))) (ap some (sym q))
  In-get r (x ∷ xs) u (inr i) = elim (Bool-cases (k.same (k.key x) (k.key r))) [
    | inl t ↦ absurd (
        In-get-some r xs i
          (subst (λ (j : K). get j xs ≡ none) ((k.same_iff (k.key x) (k.key r)).0 t) u.0))
    | inr f ↦ rw f (In-get r xs u.1 i)
  ]

  pub select-Unique :
      (q : K → Bool) (rows : List R) → Unique rows → Unique (select (λ r. q (k.key r)) rows)
  unfolding select
  select-Unique q [] u = tt
  select-Unique q (r ∷ rs) u = elim (Bool-cases (q (k.key r))) [
    | inl t ↦ rw t (get-select q (k.key r) rs ∙ rw t u.0, select-Unique q rs u.1)
    | inr f ↦ rw f (select-Unique q rs u.1)
  ]

  pub remove-Unique : (i : K) (rows : List R) → Unique rows → Unique (remove i rows)
  unfolding remove
  remove-Unique i rows u = select-Unique (λ x. not (k.same x i)) rows u

  pub modify-Unique :
      (i : K) (f : R → R) (rows : List R)
      → ((r : R) → k.key (f r) ≡ k.key r)
      → Unique rows
      → Unique (modify i f rows)
  unfolding modify
  modify-Unique i f [] same u = tt
  modify-Unique i f (r ∷ rs) same u = (
    subst (λ (j : K). get j (modify i f rs) ≡ none) (sym (kept (k.same (k.key r) i)))
        (get-modify i (k.key r) f rs same ∙ empty (k.same (k.key r) i) (get (k.key r) rs) u.0),
    modify-Unique i f rs same u.1,
  )
    where
      kept : (b : Bool) → k.key (if b then f r else r) ≡ k.key r
      kept true = same r
      kept false = refl

      empty :
          (b : Bool) (o : Option R)
          → o ≡ none
          → (if b then elim o [ none ↦ none | some x ↦ some (f x) ] else o) ≡ none
      empty true none e = refl
      empty true (some x) e = absurd (some-none e)
      empty false o e = e

  pub map-Unique :
      (f : R → R) (rows : List R)
      → ((r : R) → k.key (f r) ≡ k.key r)
      → Unique rows
      → Unique (map f rows)
  map-Unique f [] same u = tt
  map-Unique f (r ∷ rs) same u = (
    subst (λ (j : K). get j (map f rs) ≡ none) (sym (same r))
        (get-map (k.key r) f rs same ∙ ap (λ o. elim o [ none ↦ none | some x ↦ some (f x) ]) u.0),
    map-Unique f rs same u.1,
  )
