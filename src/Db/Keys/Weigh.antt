-- ===== src/Db/Keys/Weigh.antt =====
-- The sum of a weight over the rows, after a write; and how many rows there can be.
use podcast_backend.Prelude.{
  ℕ, suc, ◌+◌, ◌≤◌, Bool, true, false, none, some, List, [], ◌∷◌, map, ◌≡◌, refl, ap, sym, subst,
  ◌∙◌, not, arith, inl, inr, In, length, select, Bool-cases, some-inj, select-In,
}
use podcast_backend.Db.Keys.{Key, get, remove, modify}
use podcast_backend.Db.Keys.Unique.{Unique, In-get-some}
use podcast_backend.Db.Keys.Tally.{modify-absent}

module _ {R : Type 0} (w : R → ℕ) where
  unfoldable pub weigh : List R → ℕ
  weigh [] = 0
  weigh (r ∷ rs) = w r + weigh rs

  pub weigh-map :
      (f : R → R) (rows : List R) → ((r : R) → w (f r) ≡ w r) → weigh (map f rows) ≡ weigh rows
  unfolding weigh
  weigh-map f [] same = refl
  weigh-map f (r ∷ rs) same = rw (same r, weigh-map f rs same) refl

module _ {K R : Type 0} ⦃k : Key K R⦄ where
  pub remove-absent : (i : K) (rows : List R) → get i rows ≡ none → remove i rows ≡ rows
  unfolding get remove select
  remove-absent i [] e = refl
  remove-absent i (r ∷ rs) e = elim (Bool-cases (k.same (k.key r) i)) [
    | inl t ↦ absurd (some-none (rw t at e))
    | inr n ↦ rw n (ap (λ xs. r ∷ xs) (remove-absent i rs (rw n at e)))
  ]
    where
      some-none : some r ≡ none → ⊥
      some-none e' = cc

module _ {K R : Type 0} ⦃k : Key K R⦄ (w : R → ℕ) (i : K) where
  pub weigh-modify :
      (f : R → R) (m : R) (rows : List R)
      → Unique K rows
      → get i rows ≡ some m
      → weigh w (modify i f rows) + w m ≡ weigh w rows + w (f m)
  unfolding get modify weigh
  weigh-modify f m [] u e = absurd (cc)
  weigh-modify f m (r ∷ rs) u e = elim (Bool-cases (k.same (k.key r) i)) [
    | inl t ↦
        let here : r ≡ m = some-inj (rw t at e) in
        let absent : get i rs ≡ none =
          subst (λ (j : K). get j rs ≡ none) ((k.same_iff (k.key r) i).0 t) u.0 in
        rw (t, modify-absent (λ x. true) i f rs absent, here) (omega arith)
    | inr n ↦ rw n (omega (arith, weigh-modify f m rs u.1 (rw n at e)))
  ]

  pub weigh-remove :
      (m : R) (rows : List R)
      → Unique K rows
      → get i rows ≡ some m
      → weigh w (remove i rows) + w m ≡ weigh w rows
  unfolding get remove select weigh
  weigh-remove m [] u e = absurd (cc)
  weigh-remove m (r ∷ rs) u e = elim (Bool-cases (k.same (k.key r) i)) [
    | inl t ↦
        let here : r ≡ m = some-inj (rw t at e) in
        let absent : get i rs ≡ none =
          subst (λ (j : K). get j rs ≡ none) ((k.same_iff (k.key r) i).0 t) u.0 in
        rw t (
          ap (λ xs. weigh w xs + w m) (remove-absent i rs absent)
          ∙ ap (λ x. weigh w rs + w x) (sym here)
          ∙ omega arith)
    | inr n ↦ rw n (omega (arith, weigh-remove m rs u.1 (rw n at e)))
  ]

-- Rows under a primary key are at most as many as the keys that they may have.
module _ {A : Type 0} where
  select-length : (p : A → Bool) (xs : List A) → length (select p xs) ≤ length xs
  unfolding select
  select-length p [] = omega arith
  select-length p (x ∷ xs) = elim (Bool-cases (p x)) [
    | inl t ↦ rw t (omega (arith, select-length p xs))
    | inr f ↦ rw f (omega (arith, select-length p xs))
  ]

  select-fewer :
      (p : A → Bool) (a : A) (xs : List A)
      → In a xs
      → p a ≡ false
      → suc (length (select p xs)) ≤ length xs
  unfolding select
  select-fewer p a [] i e = elim i [ ]
  select-fewer p a (x ∷ xs) (inl q) e = rw (ap p (sym q) ∙ e) (omega (arith, select-length p xs))
  select-fewer p a (x ∷ xs) (inr i) e = elim (Bool-cases (p x)) [
    | inl t ↦ rw t (omega (arith, select-fewer p a xs i e))
    | inr f ↦ rw f (omega (arith, select-fewer p a xs i e))
  ]

module _ (K : Type 0) {R : Type 0} ⦃k : Key K R⦄ where
  -- Another row has another key.
  other-key :
      (r x : R) (rs : List R)
      → get (k.key r) rs ≡ none
      → In x rs
      → not (k.same (k.key x) (k.key r)) ≡ true
  other-key r x rs new i = elim (Bool-cases (k.same (k.key x) (k.key r))) [
    | inl t ↦
        let same : k.key x ≡ k.key r = (k.same_iff (k.key x) (k.key r)).0 t in
        absurd (In-get-some K x rs i (subst (λ (j : K). get j rs ≡ none) (sym same) new))
    | inr f ↦ rw f refl
  ]

  pub Unique-length :
      (rows : List R) (keys : List K)
      → Unique K rows
      → ((r : R) → In r rows → In (k.key r) keys)
      → length rows ≤ length keys
  Unique-length [] keys u h = omega arith
  Unique-length (r ∷ rs) keys (new, u) h =
      let own : not (k.same (k.key r) (k.key r)) ≡ false =
        rw ((k.same_iff (k.key r) (k.key r)).1 refl) refl in
      let rest : length rs ≤ length (select (λ j. not (k.same j (k.key r))) keys) =
        Unique-length rs (select (λ j. not (k.same j (k.key r))) keys) u (λ x i.
          select-In (λ j. not (k.same j (k.key r))) (k.key x) keys (h x (inr i))
            (other-key r x rs new i)) in
      omega (
        arith,
        rest,
        select-fewer (λ j. not (k.same j (k.key r))) (k.key r) keys (h r (inl refl)) own,
      )
