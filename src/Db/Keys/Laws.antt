-- ===== src/Db/Keys/Laws.antt =====
-- What a read of one key sees after a write.
use podcast_backend.Prelude.{
  Bool, true, false, none, some, List, [], map, ◌∷◌, ◌≡◌, refl, ap, ◌∙◌, inl, inr, not, select,
  if◌then◌else◌, Bool-cases, subst, some-inj,
}
use podcast_backend.Db.Keys.{Key, get, remove, modify}

module _ {K R : Type 0} ⦃k : Key K R⦄ where
  -- A deletion by the key's columns alone.
  pub get-select :
      (q : K → Bool) (j : K) (rows : List R)
      → get j (select (λ r. q (k.key r)) rows) ≡ (if q j then get j rows else none)
  unfolding get select
  get-select q j [] = elim (Bool-cases (q j)) [ inl e ↦ rw e refl | inr e ↦ rw e refl ]
  get-select q j (r ∷ rs) = elim (Bool-cases (k.same (k.key r) j)) [
    | inl e ↦
        let here : q (k.key r) ≡ q j = ap q ((k.same_iff (k.key r) j).0 e) in
        elim (Bool-cases (q j)) [
          | inl t ↦ rw (here, t, e) refl
          | inr f ↦ rw (here, f) (get-select q j rs ∙ rw f refl)
        ]
    | inr e ↦ elim (Bool-cases (q (k.key r))) [
      | inl t ↦ rw (t, e) (get-select q j rs)
      | inr f ↦ rw (f, e) (get-select q j rs)
    ]
  ]

  pub get-modify :
      (i j : K) (f : R → R) (rows : List R)
      → ((r : R) → k.key (f r) ≡ k.key r)
      → get j (modify i f rows) ≡ (
          if k.same j i
          then elim (get j rows) [ none ↦ none | some r ↦ some (f r) ]
          else get j rows)
  unfolding get modify
  get-modify i j f [] same = elim (Bool-cases (k.same j i)) [
    | inl e ↦ rw e refl
    | inr e ↦ rw e refl
  ]
  get-modify i j f (r ∷ rs) same =
      let kept : k.same (k.key (f r)) j ≡ k.same (k.key r) j = ap (λ x. k.same x j) (same r) in
      elim (Bool-cases (k.same (k.key r) j)) [
        | inl e ↦
            let here : k.same (k.key r) i ≡ k.same j i =
              ap (λ x. k.same x i) ((k.same_iff (k.key r) j).0 e) in
            elim (Bool-cases (k.same j i)) [
              | inl t ↦ rw (here, t, kept, e) refl
              | inr n ↦ rw (here, n, e) refl
            ]
        | inr e ↦ elim (Bool-cases (k.same (k.key r) i)) [
          | inl t ↦ rw (t, kept, e) (get-modify i j f rs same)
          | inr n ↦ rw (n, e) (get-modify i j f rs same)
        ]
      ]

  -- A deletion by the whole key.
  pub get-remove :
      (i j : K) (rows : List R) → get j (remove i rows) ≡ (if k.same j i then none else get j rows)
  unfolding remove
  get-remove i j rows = get-select (λ x. not (k.same x i)) j rows ∙ flip (k.same j i)
    where
      flip : (b : Bool) → (if not b then get j rows else none) ≡ (if b then none else get j rows)
      flip true = refl
      flip false = refl

  -- A row that is read has the key.
  pub get-key : (i : K) (rows : List R) (r : R) → get i rows ≡ some r → k.key r ≡ i
  unfolding get
  get-key i [] r e = absurd (cc)
  get-key i (x ∷ xs) r e = elim (Bool-cases (k.same (k.key x) i)) [
    | inl t ↦ subst (λ y. k.key y ≡ i) (some-inj (rw t at e)) ((k.same_iff (k.key x) i).0 t)
    | inr f ↦ get-key i xs r (rw f at e)
  ]

  pub get-map :
      (j : K) (f : R → R) (rows : List R)
      → ((r : R) → k.key (f r) ≡ k.key r)
      → get j (map f rows) ≡ elim (get j rows) [ none ↦ none | some r ↦ some (f r) ]
  unfolding get
  get-map j f [] same = refl
  get-map j f (r ∷ rs) same =
      let kept : k.same (k.key (f r)) j ≡ k.same (k.key r) j = ap (λ x. k.same x j) (same r) in
      elim (Bool-cases (k.same (k.key r) j)) [
        | inl e ↦ rw (kept, e) refl
        | inr e ↦ rw (kept, e) (get-map j f rs same)
      ]
