-- ===== src/Db/Keys/Tally.antt =====
-- How many rows pass a test, after a write.
use podcast_backend.Prelude.{
  ℕ, ◌+◌, ◌≤◌, Bool, true, false, none, some, List, [], ◌∷◌, map, ◌≡◌, refl, ap, subst, arith, inl,
  inr, length, select, Bool-cases, some-inj,
}
use podcast_backend.Db.Keys.{Key, get, modify}
use podcast_backend.Db.Keys.Unique.{Unique}

abbrev pub one : Bool → ℕ
one true = 1
one false = 0

module _ {R : Type 0} (q : R → Bool) where
  unfoldable pub tally : List R → ℕ
  tally [] = 0
  tally (r ∷ rs) = one (q r) + tally rs

  pub length-select : (rows : List R) → length (select q rows) ≡ tally rows
  unfolding select tally
  length-select [] = refl
  length-select (r ∷ rs) = elim (Bool-cases (q r)) [
    | inl t ↦ rw (t, length-select rs) (omega arith)
    | inr f ↦ rw (f, length-select rs) (omega arith)
  ]

  pub tally-select : (p : R → Bool) (rows : List R) → tally (select p rows) ≤ tally rows
  unfolding tally select
  tally-select p [] = omega arith
  tally-select p (r ∷ rs) = elim (Bool-cases (p r)) [
    | inl t ↦ rw t (omega (arith, tally-select p rs))
    | inr f ↦ rw f (omega (arith, tally-select p rs))
  ]

  pub tally-map :
      (f : R → R) (rows : List R) → ((r : R) → q (f r) ≡ q r) → tally (map f rows) ≡ tally rows
  unfolding tally
  tally-map f [] same = refl
  tally-map f (r ∷ rs) same = rw (same r, tally-map f rs same) refl

module _ {K R : Type 0} ⦃k : Key K R⦄ (q : R → Bool) (i : K) (f : R → R) where
  pub modify-absent : (rows : List R) → get i rows ≡ none → modify i f rows ≡ rows
  unfolding get modify
  modify-absent [] e = refl
  modify-absent (r ∷ rs) e = elim (Bool-cases (k.same (k.key r) i)) [
    | inl t ↦ absurd (some-none (rw t at e))
    | inr n ↦ rw n (ap (λ xs. r ∷ xs) (modify-absent rs (rw n at e)))
  ]
    where
      some-none : some r ≡ none → ⊥
      some-none e' = cc

  -- Under the primary key, an update changes the count by its one row.
  pub tally-modify :
      (m : R) (rows : List R)
      → Unique K rows
      → get i rows ≡ some m
      → tally q (modify i f rows) + one (q m) ≡ tally q rows + one (q (f m))
  unfolding get modify tally
  tally-modify m [] u e = absurd (cc)
  tally-modify m (r ∷ rs) u e = elim (Bool-cases (k.same (k.key r) i)) [
    | inl t ↦
        let here : r ≡ m = some-inj (rw t at e) in
        let absent : get i rs ≡ none =
          subst (λ (j : K). get j rs ≡ none) ((k.same_iff (k.key r) i).0 t) u.0 in
        rw (t, modify-absent rs absent, here) (omega arith)
    | inr n ↦ rw n (omega (arith, tally-modify m rs u.1 (rw n at e)))
  ]

  pub tally-modify-same :
      (rows : List R) → ((r : R) → q (f r) ≡ q r) → tally q (modify i f rows) ≡ tally q rows
  unfolding modify tally
  tally-modify-same [] same = refl
  tally-modify-same (r ∷ rs) same = elim (Bool-cases (k.same (k.key r) i)) [
    | inl t ↦ rw (t, same r, tally-modify-same rs same) refl
    | inr n ↦ rw (n, tally-modify-same rs same) refl
  ]
