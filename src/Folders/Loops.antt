-- ===== src/Folders/Loops.antt =====
-- The loops of the repair: placing the uuids, and moving a folder into the one for the rest.
pub mod Dissolve
pub mod FoldIn
use podcast_backend.Prelude.{
  ◌+◌, ◌≤◌, String, true, false, none, some, List, [], ◌∷◌, length, ltb, str_eq, eq_iff, ◌≡◌, ◌≢◌,
  ◌⊎◌, refl, ap, sym, subst, ◌∙◌, arith, inl, inr, In, Bool-cases,
}
use podcast_backend.Db.Keys.{get, remove}
use podcast_backend.Db.Keys.Laws.{get-remove, get-key}
use podcast_backend.Db.Keys.Unique.{Unique, remove-Unique, In-get-some}
use podcast_backend.Db.Keys.Tally.{tally}
use podcast_backend.Folders.{
  Folder, Walk, name_key, append_to, uuids_of, has_text, chosen, place, dissolve, dissolve_all,
  fold_in, fold_in_all,
}
use podcast_backend.Folders.Tables.{
  copies, total, append-Unique, total-append, get-append, total-remove, str_ne,
}

pub str_apart : (x y : String) → str_eq x y ≡ false → x ≢ y
str_apart x y e q = true-false (sym ((eq_iff x y).1 q) ∙ e)
  where
    true-false : true ≡ false → ⊥
    true-false z = cc

pub some-none : {f : Folder} → some f ≡ none → ⊥
some-none e = cc

module _ (other : String) where
  pub place-Unique :
      (w : Walk) (us : List String) (rows : List Folder)
      → Unique String rows
      → Unique String (place other w us rows)
  unfolding place
  place-Unique w [] rows d = d
  place-Unique w (u ∷ us) rows d =
      place-Unique w us _ (append-Unique (chosen other w u) (u ∷ []) rows d)

  pub total-place :
      (w : Walk) (u : String) (us : List String) (rows : List Folder)
      → Unique String rows
      → total u (place other w us rows) ≡ total u rows + copies u us
  unfolding place tally
  total-place w u [] rows d = omega arith
  total-place w u (x ∷ us) rows d = omega (
    arith,
    total-place w u us _ (append-Unique (chosen other w x) (x ∷ []) rows d),
    total-append (chosen other w x) (x ∷ []) rows u d,
  )

  -- What moving one folder into `other` does: the copies stay, and no other folder changes.
  pub record Moved (name : String) (rows rows' : List Folder) : Type 0 where
    pub unique : Unique String rows'
    pub totals : (u : String) → total u rows' ≡ total u rows
    pub gone : get name rows' ≡ none
    pub rest : (n : String) → n ≢ other → n ≢ name → get n rows' ≡ get n rows

  pub move-Moved :
      (name : String) (uuids : List String) (rows : List Folder)
      → Unique String rows
      → name ≢ other
      → uuids_of name rows ≡ uuids
      → Moved name rows (remove name (append_to other uuids rows))
  unfolding uuids_of
  move-Moved name uuids rows d apart known = record {
    unique = remove-Unique String name _ (append-Unique other uuids rows d);
    totals = λ u. omega (
      arith,
      total-remove u name (append_to other uuids rows) (append-Unique other uuids rows d),
      total-append other uuids rows u d,
      ap (copies u) (kept ∙ known),
    );
    gone = get-remove name name _ ∙ rw ((eq_iff name name).1 refl) refl;
    rest = λ n out away.
        get-remove name n _ ∙ rw (str_ne n name away) (get-append other uuids rows n out);
  }
    where
      kept : uuids_of name (append_to other uuids rows) ≡ uuids_of name rows
      kept =
          ap (λ o. elim o [ none ↦ [] | some f ↦ f.uuids ]) (get-append other uuids rows name apart)

  -- A folder that is there after a move was there before.
  pub Moved-same :
      (name : String) (rows rows' : List Folder)
      → Moved name rows rows'
      → (n : String) (m : Folder) → n ≢ other
      → get n rows' ≡ some m
      → (n ≢ name) × (get n rows ≡ some m)
  Moved-same name rows rows' moved n m out e =
      let away : n ≢ name = λ q. some-none (sym e ∙ ap (λ k. get k rows') q ∙ moved.gone) in
      (away, sym (moved.rest n out away) ∙ e)
