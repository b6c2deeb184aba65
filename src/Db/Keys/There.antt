-- ===== src/Db/Keys/There.antt =====
-- Which keys have a row, after a write.
use podcast_backend.Prelude.{
  Bool, true, false, Option, none, some, List, ◌∷◌, ◌≡◌, ◌≢◌, ◌⊎◌, refl, sym, ◌∙◌, inl, inr, select,
  if◌then◌else◌, Bool-cases,
}
use podcast_backend.Db.Keys.{Key, get, remove, modify}
use podcast_backend.Db.Keys.Laws.{get-select, get-modify, get-remove}

module _ {K R : Type 0} ⦃k : Key K R⦄ (j : K) where
  abbrev pub There : List R → Type 0
  There rows = get j rows ≢ none

  pub select-There :
      (q : K → Bool) (rows : List R)
      → There (select (λ r. q (k.key r)) rows)
      → (q j ≡ true) × There rows
  select-There q rows e = elim (Bool-cases (q j)) [
    | inl t ↦ (t, λ n. e (get-select q j rows ∙ rw t n))
    | inr f ↦ absurd (e (get-select q j rows ∙ rw f refl))
  ]

  pub remove-There : (i : K) (rows : List R) → There (remove i rows) → (j ≢ i) × There rows
  remove-There i rows e = elim (Bool-cases (k.same j i)) [
    | inl t ↦ absurd (e (get-remove i j rows ∙ rw t refl))
    | inr f ↦
        (λ q. true-false (sym ((k.same_iff j i).1 q) ∙ f), λ n. e (get-remove i j rows ∙ rw f n))
  ]
    where
      true-false : true ≡ false → ⊥
      true-false e' = cc

  pub modify-There :
      (i : K) (f : R → R) (rows : List R)
      → ((r : R) → k.key (f r) ≡ k.key r)
      → There (modify i f rows)
      → There rows
  modify-There i f rows same e n =
      e (get-modify i j f rows same ∙ split (k.same j i) (get j rows) n)
    where
      split :
          (b : Bool) (o : Option R)
          → o ≡ none
          → (if b then elim o [ none ↦ none | some r ↦ some (f r) ] else o) ≡ none
      split true none n' = refl
      split true (some r) n' = absurd (cc)
      split false o n' = n'

  pub cons-There : (r : R) (rows : List R) → There (r ∷ rows) → (k.key r ≡ j) ⊎ There rows
  unfolding get
  cons-There r rows e = elim (Bool-cases (k.same (k.key r) j)) [
    | inl t ↦ inl ((k.same_iff (k.key r) j).0 t)
    | inr f ↦ inr (λ n. e (rw f n))
  ]
