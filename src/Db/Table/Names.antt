-- ===== src/Db/Table/Names.antt =====
-- The names of one user's rows: under the primary key they are pairwise different.
use podcast_backend.Prelude.{
  ℕ, String, Bool, true, false, none, List, [], ◌∷◌, str_eq, ◌==◌, ◌≡◌, arith, All, select,
  Bool-cases, inl, inr,
}
use podcast_backend.Db.Table.{Keyed, find, Unique}

module _ {R : Type 0} ⦃k : Keyed R⦄ where
  abbrev pub FreshName : String → List R → Type 0
  FreshName name = All (λ (x : R). str_eq (k.name x) name ≡ false)

  abbrev pub DistinctNames : List R → Type 0
  DistinctNames [] = Unit
  DistinctNames (x ∷ xs) = FreshName (k.name x) xs × DistinctNames xs

  find_tail :
      (owner : ℕ) (name : String) (x : R) (t : List R)
      → find owner name (x ∷ t) ≡ none
      → find owner name t ≡ none
  unfolding find
  find_tail owner name x t h = ground arith

  find_head :
      (owner user : ℕ) (name : String) (x : R) (t : List R)
      → (owner == user) ≡ true
      → (k.user x == user) ≡ true
      → find owner name (x ∷ t) ≡ none
      → str_eq (k.name x) name ≡ false
  unfolding find
  find_head owner user name x t e m h = ground arith

  mine-FreshName :
      (owner user : ℕ) (name : String) (t : List R)
      → (owner == user) ≡ true
      → find owner name t ≡ none
      → FreshName name (select (λ (r : R). k.user r == user) t)
  unfolding find select
  mine-FreshName owner user name [] e h = tt
  mine-FreshName owner user name (x ∷ t) e h = elim (Bool-cases (k.user x == user)) [
    | inl m ↦ rw m (
      find_head owner user name x t e m h,
      mine-FreshName owner user name t e (find_tail owner name x t h),
    )
    | inr m ↦ rw m (mine-FreshName owner user name t e (find_tail owner name x t h))
  ]

  pub mine-DistinctNames :
      (user : ℕ) (t : List R) → Unique t → DistinctNames (select (λ (r : R). k.user r == user) t)
  unfolding select
  mine-DistinctNames user [] h = tt
  mine-DistinctNames user (x ∷ t) h = elim (Bool-cases (k.user x == user)) [
    | inl m ↦
        rw m (mine-FreshName (k.user x) user (k.name x) t m h.0, mine-DistinctNames user t h.1)
    | inr m ↦ rw m (mine-DistinctNames user t h.1)
  ]

  select-absent :
      (q : R → Bool) (user : ℕ) (name : String) (t : List R)
      → find user name t ≡ none
      → find user name (select q t) ≡ none
  unfolding find select
  select-absent q user name [] h = h
  select-absent q user name (x ∷ t) h = elim (Bool-cases (q x)) [
    | inl e ↦
        let rest = select-absent q user name t (find_tail user name x t h) in rw e (ground arith)
    | inr e ↦ rw e (select-absent q user name t (find_tail user name x t h))
  ]

  -- Deleting rows keeps the primary key.
  pub select-Unique : (q : R → Bool) (t : List R) → Unique t → Unique (select q t)
  unfolding select
  select-Unique q [] h = tt
  select-Unique q (x ∷ t) h = elim (Bool-cases (q x)) [
    | inl e ↦ rw e (select-absent q (k.user x) (k.name x) t h.0, select-Unique q t h.1)
    | inr e ↦ rw e (select-Unique q t h.1)
  ]
