-- ===== src/Folders/Repaired.antt =====
-- repairFolderAssignments: what the suggestion looks like, whatever the provider answered.
use podcast_backend.Prelude.{
  suc, ◌≤◌, String, true, not, some, List, [], ◌∷◌, map, take, length, length-take-le, ltb, str_eq,
  eq_iff, ◌≡◌, ◌≢◌, refl, ap, sym, subst, ◌∙◌, arith, inl, inr, In, In-map, In-select, select-In,
  sort_by-In, In-sort_by, length-sort_by, select, Bool-cases, Option-cases,
}
use podcast_backend.Db.Keys.{get}
use podcast_backend.Db.Keys.Laws.{get-key}
use podcast_backend.Db.Keys.Unique.{Unique, get-In, In-get, In-get-some, map-Unique}
use podcast_backend.Db.Keys.Weigh.{weigh, Unique-length}
use podcast_backend.Folders.{
  Folder, name_key, has_text, place, dissolve_all, fold_in_all, ranked, by_size, limit, sort_uuids,
  before_text, walk, repair_folder_assignments,
}
use podcast_backend.Folders.Tables.{copies, total, total-sort, str_ne}
use podcast_backend.Folders.Loops.{str_apart, place-Unique, total-place}
use podcast_backend.Folders.Loops.Dissolve.{Dissolved, dissolve_all-Dissolved}
use podcast_backend.Folders.Loops.FoldIn.{Folding, Folded, fold_in_all-Folded}

-- The folders suggested for the submitted uuids: each uuid stands in them as often as it was
-- submitted, and no other does; no two have one name; there are at most eight; and each but the
-- folder `other` holds at least two.
pub record Repaired (submitted : List String) (other : String) (rows : List Folder) : Type 0 where
  pub each : (u : String) → total u rows ≡ copies u submitted
  pub names : Unique String rows
  pub few : length rows ≤ 8
  pub large : (f : Folder) → In f rows → f.name ≢ other → 2 ≤ length f.uuids

length-map : {A B : Type 0} (f : A → B) (xs : List A) → length (map f xs) ≡ length xs
length-map f [] = refl
length-map f (x ∷ xs) = ap suc (length-map f xs)

has_text-In : (u : String) (xs : List String) → has_text u xs ≡ true → In u xs
unfolding has_text
has_text-In u [] e = absurd (cc)
has_text-In u (x ∷ xs) e = elim (Bool-cases (str_eq x u)) [
  | inl same ↦ inl (sym ((eq_iff x u).0 same))
  | inr other ↦ inr (has_text-In u xs (rw other at e))
]

module _ (submitted : List String) (other : String) where
  -- The folders by rank are those but `other`.
  ranked-Folding :
      (keep : List String) (rows : List Folder)
      → Unique String rows
      → Folding other keep (ranked other rows) rows
  unfolding ranked
  ranked-Folding keep rows d = record {
    unique = d;
    apart = λ f i.
        let (j, test) =
          In-select (λ f. not (str_eq f.name other)) f rows
            (In-sort_by by_size f (select (λ f. not (str_eq f.name other)) rows) i) in
        str_apart f.name other (ground arith);
    named = λ n out e. elim (Option-cases (get n rows)) [
      | inl gone ↦ absurd (e gone)
      | inr (f, there) ↦
          let key : f.name ≡ n = get-key n rows f there in
          inr (
            f,
            sort_by-In by_size f (select (λ f. not (str_eq f.name other)) rows) (
                select-In (λ f. not (str_eq f.name other)) f rows (get-In String n rows f there)
                  (ap not (str_ne f.name other (λ q. out (sym key ∙ q))))),
            key,
          )
    ];
  }

  folded-Repaired :
      (rows : List Folder)
      → Unique String rows
      → ((u : String) → total u rows ≡ copies u submitted)
      → ((n : String) (m : Folder) → n ≢ other → get n rows ≡ some m → 2 ≤ length m.uuids)
      → Repaired submitted other (
          fold_in_all other
            (map (λ f. f.name) (take 7 (ranked other rows)))
            (ranked other rows)
            rows)
  folded-Repaired rows d each large =
      let keep = map (λ f. f.name) (take 7 (ranked other rows)) in
      let done : Folded other keep rows (fold_in_all other keep (ranked other rows) rows) =
        fold_in_all-Folded other keep (ranked other rows) rows (ranked-Folding keep rows d) in
      let known : (f : Folder)
          → In f (fold_in_all other keep (ranked other rows) rows)
          → In f.name (other ∷ keep) =
        λ f i. elim (Bool-cases (str_eq f.name other)) [
          | inl same ↦ inl ((eq_iff f.name other).0 same)
          | inr apart ↦ inr (
              has_text-In f.name keep
                (done.named f.name (str_apart f.name other apart) (In-get-some String f _ i)))
        ] in
      record {
        each = λ u. done.totals u ∙ each u;
        names = done.unique;
        few = omega (
          arith,
          Unique-length String _ (other ∷ keep) done.unique known,
          length-map (λ (f : Folder). f.name) (take 7 (ranked other rows)),
          length-take-le 7 (ranked other rows),
        );
        large = λ f i out.
            large f.name f out (done.same f.name f out (In-get String f _ done.unique i));
      }

  limit-Repaired :
      (rows : List Folder)
      → Unique String rows
      → ((u : String) → total u rows ≡ copies u submitted)
      → ((n : String) (m : Folder) → n ≢ other → get n rows ≡ some m → 2 ≤ length m.uuids)
      → Repaired submitted other (limit other rows)
  unfolding limit
  limit-Repaired rows d each large = elim (Bool-cases (ltb 8 (length rows))) [
    | inr small ↦ rw small (record {
      each = each;
      names = d;
      few = ground arith;
      large = λ f i out. large f.name f out (In-get String f rows d i);
    })
    | inl many ↦ rw many (folded-Repaired rows d each large)
  ]

  sorted-Repaired :
      (rows : List Folder)
      → Repaired submitted other rows
      → Repaired submitted other (map sort_uuids rows)
  unfolding sort_uuids
  sorted-Repaired rows r = record {
    each = λ u. total-sort u rows ∙ r.each u;
    names = map-Unique String sort_uuids rows (λ f. refl) r.names;
    few = omega (arith, length-map sort_uuids rows, r.few);
    large = λ f i out.
        let (g, j, same) = In-map sort_uuids f rows i in
        subst (λ x. 2 ≤ length x.uuids) (sym same)
          (omega (
            arith,
            length-sort_by before_text g.uuids,
            r.large g j (λ q. out (ap (λ x. x.name) same ∙ q)),
          ));
  }

-- The suggestion is well formed, whatever folders the provider answered with and whatever the case
-- table: each submitted uuid is in it as often as it was submitted, and no other uuid is; its names
-- differ; it has at most eight folders; and each but the folder for the rest holds two uuids.
pub repair_folder_assignments-Repaired :
    (to_lower : String → String) (groups : List Folder) (submitted : List String) (other : String)
    → Repaired submitted other (repair_folder_assignments to_lower groups submitted other)
unfolding repair_folder_assignments weigh
repair_folder_assignments-Repaired to_lower groups submitted other =
    let w = walk to_lower submitted other groups in
    let result = place other w submitted [] in
    let d : Unique String result = place-Unique other w submitted [] tt in
    let left : Dissolved other result (dissolve_all other result result) =
      dissolve_all-Dissolved other result result (record {
        unique = d;
        once = d;
        there = λ f i out. In-get String f result d i;
        large = λ n m out e. inl (get-In String n result m e);
      }) in
    sorted-Repaired submitted other _ (
      limit-Repaired submitted other (dissolve_all other result result) left.unique
        (λ u. left.totals u ∙ total-place other w u submitted [] tt ∙ omega arith) left.large)
