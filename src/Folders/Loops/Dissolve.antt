-- ===== src/Folders/Loops/Dissolve.antt =====
-- The loop that dissolves the folders of one podcast.
use podcast_backend.Prelude.{
  ◌≤◌, String, none, some, List, [], ◌∷◌, length, ltb, str_eq, eq_iff, ◌≡◌, ◌≢◌, ◌⊎◌, refl, ap, sym,
  subst, ◌∙◌, arith, inl, inr, In, Bool-cases,
}
use podcast_backend.Db.Keys.{get}
use podcast_backend.Db.Keys.Laws.{get-key}
use podcast_backend.Db.Keys.Unique.{Unique, In-get-some}
use podcast_backend.Folders.{Folder, name_key, uuids_of, dissolve, dissolve_all}
use podcast_backend.Folders.Tables.{total}
use podcast_backend.Folders.Loops.{str_apart, some-none, Moved, move-Moved}

module _ (other : String) where
  -- One turn of the first loop: the folder is large or `other`, or it goes.
  dissolve-cases :
      (f : Folder) (rows : List Folder)
      → Unique String rows
      → (f.name ≢ other → get f.name rows ≡ some f)
      → ((dissolve other f rows ≡ rows) × ((f.name ≡ other) ⊎ (2 ≤ length f.uuids)))
        ⊎ ((f.name ≢ other) × Moved other f.name rows (dissolve other f rows))
  unfolding dissolve uuids_of
  dissolve-cases f rows d there = elim (Bool-cases (str_eq f.name other)) [
    | inl same ↦ inl (rw same refl, inl ((eq_iff f.name other).0 same))
    | inr apart ↦ elim (Bool-cases (ltb (length f.uuids) 2)) [
      | inr large ↦ inl (rw (apart, large) refl, inr (ground arith))
      | inl small ↦
          let out : f.name ≢ other = str_apart f.name other apart in
          inr (
            out,
            rw (apart, small)
                (move-Moved other f.name f.uuids rows d out
                  (ap (λ o. elim o [ none ↦ [] | some g ↦ g.uuids ]) (there out))),
          )
    ]
  ]

  -- The folders still to visit are there as they were, and the others are large.
  pub record Visiting (fs rows : List Folder) : Type 0 where
    pub unique : Unique String rows
    pub once : Unique String fs
    pub there : (f : Folder) → In f fs → f.name ≢ other → get f.name rows ≡ some f
    pub large :
        (n : String) (m : Folder) → n ≢ other → get n rows ≡ some m → In m fs ⊎ (2 ≤ length m.uuids)

  kept-Visiting :
      (f : Folder) (fs rows : List Folder)
      → Visiting (f ∷ fs) rows
      → (f.name ≡ other) ⊎ (2 ≤ length f.uuids)
      → Visiting fs rows
  kept-Visiting f fs rows v kind = record {
    unique = v.unique;
    once = v.once.1;
    there = λ g i out. v.there g (inr i) out;
    large = λ n m out e. elim (v.large n m out e) [
      | inl i ↦ elim i [
        | inl q ↦ elim kind [
          | inl same ↦ absurd (out (sym (get-key n rows m e) ∙ ap (λ x. x.name) q ∙ same))
          | inr big ↦ inr (subst (λ x. 2 ≤ length x.uuids) (sym q) big)
        ]
        | inr later ↦ inl later
      ]
      | inr big ↦ inr big
    ];
  }

  Moved-Visiting :
      (f : Folder) (fs rows rows' : List Folder)
      → Visiting (f ∷ fs) rows
      → Moved other f.name rows rows'
      → Visiting fs rows'
  Moved-Visiting f fs rows rows' v moved = record {
    unique = moved.unique;
    once = v.once.1;
    there = λ g i out.
        moved.rest g.name out (λ q. In-get-some String g fs i (ap (λ k. get k fs) q ∙ v.once.0))
        ∙ v.there g (inr i) out;
    large = λ n m out e. elim (Bool-cases (str_eq n f.name)) [
      | inl t ↦
          let same : n ≡ f.name = (eq_iff n f.name).0 t in
          absurd (some-none (sym e ∙ ap (λ k. get k rows') same ∙ moved.gone))
      | inr apart ↦
          let away : n ≢ f.name = str_apart n f.name apart in
          let before : get n rows ≡ some m = sym (moved.rest n out away) ∙ e in
          elim (v.large n m out before) [
            | inl i ↦ elim i [
              | inl q ↦ absurd (away (sym (get-key n rows m before) ∙ ap (λ x. x.name) q))
              | inr later ↦ inl later
            ]
            | inr big ↦ inr big
          ]
    ];
  }

  -- What the first loop leaves.
  pub record Dissolved (rows rows' : List Folder) : Type 0 where
    pub unique : Unique String rows'
    pub totals : (u : String) → total u rows' ≡ total u rows
    pub large : (n : String) (m : Folder) → n ≢ other → get n rows' ≡ some m → 2 ≤ length m.uuids

  pub dissolve_all-Dissolved :
      (fs rows : List Folder) → Visiting fs rows → Dissolved rows (dissolve_all other fs rows)
  unfolding dissolve_all
  dissolve_all-Dissolved [] rows v = record {
    unique = v.unique;
    totals = λ u. refl;
    large = λ n m out e. elim (v.large n m out e) [ inl i ↦ elim i [ ] | inr big ↦ big ];
  }
  dissolve_all-Dissolved (f ∷ fs) rows v =
      elim (dissolve-cases f rows v.unique (v.there f (inl refl))) [
        | inl (same, kind) ↦
            let rest =
              dissolve_all-Dissolved fs (dissolve other f rows)
                (subst (Visiting fs) (sym same) (kept-Visiting f fs rows v kind)) in
            record {
              unique = rest.unique;
              totals = λ u. rest.totals u ∙ ap (total u) same;
              large = rest.large;
            }
        | inr (out, moved) ↦
            let rest =
              dissolve_all-Dissolved fs (dissolve other f rows)
                (Moved-Visiting f fs rows (dissolve other f rows) v moved) in
            record {
              unique = rest.unique;
              totals = λ u. rest.totals u ∙ moved.totals u;
              large = rest.large;
            }
      ]
