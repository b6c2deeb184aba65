-- ===== src/Prelude/Sort.antt =====
-- A stable insertion sort by a Boolean order: what ORDER BY and sort.SliceStable do.
use Prim.Native.Nat.{suc}
use mathlib.Core.Path.{◌≡◌, refl, ap, ◌∙◌}
use mathlib.Core.Logic.{◌⊎◌, inl, inr}
use mathlib.Core.Bool.{Bool}
use mathlib.Core.List.{List, [], ◌∷◌}
use native.Mathlib.Omega.{arith}
use podcast_backend.Prelude.Tests.{if◌then◌else◌, Bool-cases}
use podcast_backend.Prelude.Lists.{length, In, All}

module _ {A : Type 0} (before : A → A → Bool) where
  -- Before the first element that does not come before it.
  unfoldable pub insert_sorted : A → List A → List A
  insert_sorted x [] = x ∷ []
  insert_sorted x (y ∷ ys) = if before y x then y ∷ insert_sorted x ys else x ∷ y ∷ ys

  unfoldable pub sort_by : List A → List A
  unfolding insert_sorted
  sort_by [] = []
  sort_by (x ∷ xs) = insert_sorted x (sort_by xs)

  insert_sorted-In : (a x : A) (ys : List A) → (a ≡ x) ⊎ In a ys → In a (insert_sorted x ys)
  unfolding insert_sorted
  insert_sorted-In a x [] h = h
  insert_sorted-In a x (y ∷ ys) h = elim (Bool-cases (before y x)) [
    | inl e ↦ rw e (elim h [
      | inl q ↦ inr (insert_sorted-In a x ys (inl q))
      | inr i ↦ elim i [ inl q ↦ inl q | inr j ↦ inr (insert_sorted-In a x ys (inr j)) ]
    ])
    | inr e ↦ rw e h
  ]

  In-insert_sorted : (a x : A) (ys : List A) → In a (insert_sorted x ys) → (a ≡ x) ⊎ In a ys
  unfolding insert_sorted
  In-insert_sorted a x [] h = h
  In-insert_sorted a x (y ∷ ys) h = elim (Bool-cases (before y x)) [
    | inl e ↦ elim (rw e at h) [
      | inl q ↦ inr (inl q)
      | inr i ↦ elim (In-insert_sorted a x ys i) [ inl q ↦ inl q | inr j ↦ inr (inr j) ]
    ]
    | inr e ↦ rw e at h
  ]

  pub sort_by-In : (a : A) (xs : List A) → In a xs → In a (sort_by xs)
  unfolding sort_by
  sort_by-In a [] h = elim h [ ]
  sort_by-In a (x ∷ xs) (inl e) = insert_sorted-In a x (sort_by xs) (inl e)
  sort_by-In a (x ∷ xs) (inr h) = insert_sorted-In a x (sort_by xs) (inr (sort_by-In a xs h))

  pub In-sort_by : (a : A) (xs : List A) → In a (sort_by xs) → In a xs
  unfolding sort_by
  In-sort_by a [] h = elim h [ ]
  In-sort_by a (x ∷ xs) h = elim (In-insert_sorted a x (sort_by xs) h) [
    | inl e ↦ inl e
    | inr i ↦ inr (In-sort_by a xs i)
  ]

  length-insert_sorted : (x : A) (ys : List A) → length (insert_sorted x ys) ≡ suc (length ys)
  unfolding insert_sorted
  length-insert_sorted x [] = refl
  length-insert_sorted x (y ∷ ys) = ground (arith, length-insert_sorted x ys)

  pub length-sort_by : (xs : List A) → length (sort_by xs) ≡ length xs
  unfolding sort_by
  length-sort_by [] = refl
  length-sort_by (x ∷ xs) = length-insert_sorted x (sort_by xs) ∙ ap suc (length-sort_by xs)

  pub All-insert_sorted {κ} :
      (P : A → Type κ) (x : A) (ys : List A) → P x → All P ys → All P (insert_sorted x ys)
  unfolding insert_sorted
  All-insert_sorted P x [] p h = (p, tt)
  All-insert_sorted P x (y ∷ ys) p h = elim (Bool-cases (before y x)) [
    | inl e ↦ rw e (h.0, All-insert_sorted P x ys p h.1)
    | inr e ↦ rw e (p, h)
  ]

  pub All-sort_by {κ} : (P : A → Type κ) (xs : List A) → All P xs → All P (sort_by xs)
  unfolding sort_by
  All-sort_by P [] h = tt
  All-sort_by P (x ∷ xs) h = All-insert_sorted P x (sort_by xs) h.0 (All-sort_by P xs h.1)
