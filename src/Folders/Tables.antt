-- ===== src/Folders/Tables.antt =====
-- How often a uuid stands in the folders, and the names of the folders, after each statement.
use podcast_backend.Prelude.{
  ℕ, ◌+◌, String, Bool, false, Option, none, some, List, [], ◌∷◌, ◌++◌, map, str_eq, eq_iff, ◌≡◌,
  ◌≢◌, refl, ap, sym, ◌∙◌, arith, inl, inr, Bool-cases, Option-cases, sort_by, insert_sorted,
}
use podcast_backend.Db.Keys.{get, remove}
use podcast_backend.Db.Keys.Laws.{get-modify}
use podcast_backend.Db.Keys.Unique.{Unique, modify-Unique}
use podcast_backend.Db.Keys.Tally.{tally}
use podcast_backend.Db.Keys.Weigh.{weigh, weigh-map, weigh-modify, weigh-remove, remove-absent}
use podcast_backend.Folders.{
  Folder, name_key, append_to, put_uuids, uuids_of, sort_uuids, before_text,
}

-- How often the uuid stands in a list, and in all folders together.
abbrev pub copies : String → List String → ℕ
copies u xs = tally (str_eq u) xs

abbrev copies_in : String → Folder → ℕ
copies_in u f = copies u f.uuids

abbrev pub total : String → List Folder → ℕ
total u rows = weigh (copies_in u) rows

copies-append : (u : String) (xs ys : List String) → copies u (xs ++ ys) ≡ copies u xs + copies u ys
unfolding tally
copies-append u [] ys = omega arith
copies-append u (x ∷ xs) ys = omega (arith, copies-append u xs ys)

-- Sorting keeps the copies.
module _ (before : String → String → Bool) where
  copies-insert :
      (u x : String) (ys : List String) → copies u (insert_sorted before x ys) ≡ copies u (x ∷ ys)
  unfolding tally insert_sorted
  copies-insert u x [] = refl
  copies-insert u x (y ∷ ys) = elim (Bool-cases (before y x)) [
    | inl t ↦ rw t (omega (arith, copies-insert u x ys))
    | inr f ↦ rw f refl
  ]

  copies-sort : (u : String) (xs : List String) → copies u (sort_by before xs) ≡ copies u xs
  unfolding tally sort_by
  copies-sort u [] = refl
  copies-sort u (x ∷ xs) = omega (arith, copies-insert u x (sort_by before xs), copies-sort u xs)

pub str_ne : (x y : String) → x ≢ y → str_eq x y ≡ false
str_ne x y other = elim (Bool-cases (str_eq x y)) [
  | inl same ↦ absurd (other ((eq_iff x y).0 same))
  | inr e ↦ e
]

module _ (name : String) (uuids : List String) (rows : List Folder) where
  pub append-Unique : Unique String rows → Unique String (append_to name uuids rows)
  unfolding append_to put_uuids
  append-Unique d = elim (Option-cases (get name rows)) [
    | inl gone ↦ rw gone (gone, d)
    | inr (f, there) ↦ rw there (modify-Unique String name _ rows (λ r. refl) d)
  ]

  pub total-append :
      (u : String)
      → Unique String rows
      → total u (append_to name uuids rows) ≡ total u rows + copies u uuids
  unfolding append_to put_uuids weigh
  total-append u d = elim (Option-cases (get name rows)) [
    | inl gone ↦ rw gone (omega arith)
    | inr (f, there) ↦ rw there (
        omega (
          arith,
          weigh-modify (copies_in u) name (λ g. record g { uuids = g.uuids ++ uuids }) f rows d
              there,
          copies-append u f.uuids uuids,
        ))
  ]

  -- A folder of another name stays as it is.
  pub get-append : (n : String) → n ≢ name → get n (append_to name uuids rows) ≡ get n rows
  unfolding append_to put_uuids get
  get-append n other = elim (Option-cases (get name rows)) [
    | inl gone ↦ rw (gone, str_ne name n (λ e. other (sym e))) refl
    | inr (f, there) ↦ rw there (
        get-modify name n (λ g. record g { uuids = g.uuids ++ uuids }) rows (λ r. refl)
        ∙ rw (str_ne n name other) refl)
  ]

pub total-remove :
    (u name : String) (rows : List Folder)
    → Unique String rows
    → total u (remove name rows) + copies u (uuids_of name rows) ≡ total u rows
unfolding uuids_of tally
total-remove u name rows d = at (get name rows) refl
  where
    at :
        (o : Option Folder)
        → get name rows ≡ o
        → total u (remove name rows) + copies u (elim o [ none ↦ [] | some f ↦ f.uuids ])
          ≡ total u rows
    at none gone = ap (λ x. total u x + 0) (remove-absent name rows gone) ∙ omega arith
    at (some f) there = weigh-remove (copies_in u) name f rows d there

pub total-sort : (u : String) (rows : List Folder) → total u (map sort_uuids rows) ≡ total u rows
unfolding sort_uuids
total-sort u rows = weigh-map (copies_in u) sort_uuids rows (λ f. copies-sort before_text u f.uuids)
