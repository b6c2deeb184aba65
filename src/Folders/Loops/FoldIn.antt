-- ===== src/Folders/Loops/FoldIn.antt =====
-- The loop that folds the smaller folders into the one for the rest.
use podcast_backend.Prelude.{
  String, true, none, some, List, [], ◌∷◌, ◌≡◌, ◌≢◌, ◌⊎◌, refl, ap, sym, subst, ◌∙◌, inl, inr, In,
  Bool-cases,
}
use podcast_backend.Db.Keys.{get}
use podcast_backend.Db.Keys.Unique.{Unique}
use podcast_backend.Folders.{Folder, name_key, uuids_of, has_text, fold_in, fold_in_all}
use podcast_backend.Folders.Tables.{total}
use podcast_backend.Folders.Loops.{Moved, move-Moved, Moved-same}

module _ (other : String) where
  -- One turn of the second loop.
  fold_in-cases :
      (keep : List String) (item : Folder) (rows : List Folder)
      → Unique String rows
      → item.name ≢ other
      → ((fold_in other keep item rows ≡ rows) × (has_text item.name keep ≡ true))
        ⊎ Moved other item.name rows (fold_in other keep item rows)
  unfolding fold_in
  fold_in-cases keep item rows d out = elim (Bool-cases (has_text item.name keep)) [
    | inl kept ↦ inl (rw kept refl, kept)
    | inr not_kept ↦
        inr (rw not_kept (move-Moved other item.name (uuids_of item.name rows) rows d out refl))
  ]

  -- The names of the folders are `other`, kept, or still to visit.
  pub record Folding (keep : List String) (items rows : List Folder) : Type 0 where
    pub unique : Unique String rows
    pub apart : (f : Folder) → In f items → f.name ≢ other
    pub named :
        (n : String)
        → n ≢ other
        → get n rows ≢ none
        → (has_text n keep ≡ true) ⊎ ((f : Folder) × In f items × (f.name ≡ n))

  kept-Folding :
      (keep : List String) (item : Folder) (items rows : List Folder)
      → Folding keep (item ∷ items) rows
      → has_text item.name keep ≡ true
      → Folding keep items rows
  kept-Folding keep item items rows v kept = record {
    unique = v.unique;
    apart = λ f i. v.apart f (inr i);
    named = λ n out e. elim (v.named n out e) [
      | inl k ↦ inl k
      | inr (f, i, q) ↦ elim i [
        | inl here ↦ inl (ap (λ k. has_text k keep) (sym q ∙ ap (λ x. x.name) here) ∙ kept)
        | inr later ↦ inr (f, later, q)
      ]
    ];
  }

  Moved-Folding :
      (keep : List String) (item : Folder) (items rows rows' : List Folder)
      → Folding keep (item ∷ items) rows
      → Moved other item.name rows rows'
      → Folding keep items rows'
  Moved-Folding keep item items rows rows' v moved = record {
    unique = moved.unique;
    apart = λ f i. v.apart f (inr i);
    named = λ n out e.
        let away : n ≢ item.name = λ q. e (ap (λ k. get k rows') q ∙ moved.gone) in
        elim (v.named n out (λ z. e (moved.rest n out away ∙ z))) [
          | inl k ↦ inl k
          | inr (f, i, q) ↦ elim i [
            | inl here ↦ absurd (away (sym q ∙ ap (λ x. x.name) here))
            | inr later ↦ inr (f, later, q)
          ]
        ];
  }

  pub record Folded (keep : List String) (rows rows' : List Folder) : Type 0 where
    pub unique : Unique String rows'
    pub totals : (u : String) → total u rows' ≡ total u rows
    pub named : (n : String) → n ≢ other → get n rows' ≢ none → has_text n keep ≡ true
    pub same : (n : String) (m : Folder) → n ≢ other → get n rows' ≡ some m → get n rows ≡ some m

  pub fold_in_all-Folded :
      (keep : List String) (items rows : List Folder)
      → Folding keep items rows
      → Folded keep rows (fold_in_all other keep items rows)
  unfolding fold_in_all
  fold_in_all-Folded keep [] rows v = record {
    unique = v.unique;
    totals = λ u. refl;
    named = λ n out e. elim (v.named n out e) [ inl k ↦ k | inr i ↦ elim i.1 [ ] ];
    same = λ n m out e. e;
  }
  fold_in_all-Folded keep (item ∷ items) rows v =
      elim (fold_in-cases keep item rows v.unique (v.apart item (inl refl))) [
        | inl (same, kept) ↦
            let rest =
              fold_in_all-Folded keep items (fold_in other keep item rows) (
                subst (Folding keep items) (sym same) (kept-Folding keep item items rows v kept)) in
            record {
              unique = rest.unique;
              totals = λ u. rest.totals u ∙ ap (total u) same;
              named = rest.named;
              same = λ n m out e. ap (get n) (sym same) ∙ rest.same n m out e;
            }
        | inr moved ↦
            let rest =
              fold_in_all-Folded keep items (fold_in other keep item rows)
                (Moved-Folding keep item items rows _ v moved) in
            record {
              unique = rest.unique;
              totals = λ u. rest.totals u ∙ moved.totals u;
              named = rest.named;
              same = λ n m out e.
                  (Moved-same other item.name rows _ moved n m out (rest.same n m out e)).1;
            }
      ]
