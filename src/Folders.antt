-- ===== src/Folders.antt =====
-- handlers/folders.go: the suggestion of folders for a user's podcasts. A map of Go is a list under its
-- key; where the code walks over a map, in whatever order Go takes, the order is the list's.
pub mod Language
pub mod Suggest
pub mod Tables
pub mod Loops
pub mod Repaired
use Prim.Native.Char.{code}
use podcast_backend.Prelude.{
  String, Bool, true, false, not, ◌&&◌, ◌||◌, Option, none, some, List, [], ◌∷◌, ◌++◌, map, length,
  take, ltb, ◌==◌, str_eq, eq_iff, if◌then◌else◌, select, sort_by, or_else,
}
use podcast_backend.Db.Keys.{Key, get, remove, modify}
use podcast_backend.Moderation.{trim_space}

-- An entry of map[string][]string.
pub record Folder : Type 0 where
  pub name : String
  pub uuids : List String

instance abbrev pub name_key : Key String Folder
name_key = record { key = λ f. f.name; same = str_eq; same_iff = eq_iff }

-- Go's < on strings: the order of the code points.
unfoldable pub before_text : String → String → Bool
before_text s String.[] = false
before_text String.[] (String.◌∷◌ d t) = true
before_text (String.◌∷◌ c s) (String.◌∷◌ d t) =
    ltb (code c) (code d) || ((code c == code d) && before_text s t)

unfoldable pub has_text : String → List String → Bool
has_text u [] = false
has_text u (x ∷ xs) = str_eq x u || has_text u xs

-- m[k] of a map[string]string, if it is there.
unfoldable pub value_of : String → List (String × String) → Option String
value_of k [] = none
value_of k ((j, v) ∷ rows) = if str_eq j k then some v else value_of k rows

-- result[name] = append(result[name], uuids...)
unfoldable pub put_uuids : String → List String → Option Folder → List Folder → List Folder
put_uuids name uuids none rows = record { name = name; uuids = uuids } ∷ rows
put_uuids name uuids (some f) rows = modify name (λ g. record g { uuids = g.uuids ++ uuids }) rows

unfoldable pub append_to : String → List String → List Folder → List Folder
unfolding put_uuids
append_to name uuids rows = put_uuids name uuids (get name rows) rows

-- result[name], the empty list where it is absent.
unfoldable pub uuids_of : String → List Folder → List String
uuids_of name rows = elim (get name rows) [ none ↦ [] | some f ↦ f.uuids ]

-- The names seen, by their folded form; the folder of each uuid; the uuids seen twice.
pub record Walk : Type 0 where
  pub canonical_names : List (String × String)
  pub assignments : List (String × String)
  pub duplicate : List String

unfoldable pub assign_uuid : List String → String → Walk → String → Walk
assign_uuid allowed name w uuid =
    if not (has_text uuid allowed) then w else elim (value_of uuid w.assignments) [
      | some n ↦ record w { duplicate = uuid ∷ w.duplicate }
      | none ↦ record w { assignments = (uuid, name) ∷ w.assignments }
    ]

unfoldable pub assign_uuids : List String → String → Walk → List String → Walk
unfolding assign_uuid
assign_uuids allowed name w [] = w
assign_uuids allowed name w (u ∷ us) = assign_uuids allowed name (assign_uuid allowed name w u) us

module _ (to_lower : String → String) (submitted : List String) (other : String) where
  -- A folder's name as it counts, and the walk that has seen it.
  unfoldable pub canonical : String → Walk → String × Walk
  canonical raw w =
      let trimmed = trim_space raw in
      let name = if str_eq trimmed "" then other else trimmed in
      let existing = or_else (value_of (to_lower name) w.canonical_names) "" in
      if str_eq existing ""
      then (name, record w { canonical_names = (to_lower name, name) ∷ w.canonical_names })
      else (existing, w)

  unfoldable pub assign_folders : Walk → List Folder → Walk
  unfolding assign_uuids canonical
  assign_folders w [] = w
  assign_folders w (f ∷ fs) =
      let named = canonical f.name w in
      assign_folders (assign_uuids submitted named.0 named.1 f.uuids) fs

  before_folded : Folder → Folder → Bool
  before_folded a b = before_text (to_lower (trim_space a.name)) (to_lower (trim_space b.name))

  unfoldable pub walk : List Folder → Walk
  unfolding assign_folders before_folded before_text
  walk groups =
      assign_folders (record { canonical_names = []; assignments = []; duplicate = [] })
        (sort_by before_folded groups)

-- The larger first, then by name.
by_size : Folder → Folder → Bool
by_size a b =
    if length a.uuids == length b.uuids
    then before_text a.name b.name
    else ltb (length b.uuids) (length a.uuids)

unfoldable pub sort_uuids : Folder → Folder
unfolding before_text
sort_uuids f = record f { uuids = sort_by before_text f.uuids }

module _ (other : String) where
  -- The folder of a submitted uuid.
  unfoldable pub chosen : Walk → String → String
  chosen w uuid =
      if has_text uuid w.duplicate then other else or_else (value_of uuid w.assignments) other

  unfoldable pub place : Walk → List String → List Folder → List Folder
  unfolding chosen append_to
  place w [] rows = rows
  place w (u ∷ us) rows = place w us (append_to (chosen w u) (u ∷ []) rows)

  -- The loop that dissolves the folders of one podcast.
  unfoldable pub dissolve : Folder → List Folder → List Folder
  unfolding append_to
  dissolve f rows =
      if not (str_eq f.name other) && ltb (length f.uuids) 2
      then remove f.name (append_to other f.uuids rows)
      else rows

  unfoldable pub dissolve_all : List Folder → List Folder → List Folder
  unfolding dissolve
  dissolve_all [] rows = rows
  dissolve_all (f ∷ fs) rows = dissolve_all fs (dissolve f rows)

  unfoldable pub ranked : List Folder → List Folder
  unfolding by_size before_text
  ranked rows = sort_by by_size (select (λ f. not (str_eq f.name other)) rows)

  unfoldable pub fold_in : List String → Folder → List Folder → List Folder
  unfolding append_to uuids_of
  fold_in keep item rows =
      if has_text item.name keep
      then rows
      else remove item.name (append_to other (uuids_of item.name rows) rows)

  unfoldable pub fold_in_all : List String → List Folder → List Folder → List Folder
  unfolding fold_in
  fold_in_all keep [] rows = rows
  fold_in_all keep (item ∷ items) rows = fold_in_all keep items (fold_in keep item rows)

  -- At most eight folders: the seven largest and the rest in one.
  unfoldable pub limit : List Folder → List Folder
  unfolding ranked fold_in_all
  limit rows =
      if ltb 8 (length rows)
      then fold_in_all (map (λ f. f.name) (take 7 (ranked rows))) (ranked rows) rows
      else rows

-- repairFolderAssignments
unfoldable pub repair_folder_assignments :
    (String → String) → List Folder → List String → String → List Folder
unfolding walk place dissolve_all limit sort_uuids
repair_folder_assignments to_lower groups submitted other =
    let result = place other (walk to_lower submitted other groups) submitted [] in
    map sort_uuids (limit other (dissolve_all other result result))
