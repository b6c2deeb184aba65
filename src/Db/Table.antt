-- ===== src/Db/Table.antt =====
-- A Postgres table whose primary key is a user's id and a text column: the rows as a list, each
-- statement of db/queries.sql as a function over it. SQL leaves the order of the rows open where a
-- query has no ORDER BY; this one keeps a row's place, and no theorem uses it.
pub mod Laws
pub mod Names
use podcast_backend.Prelude.{
  ℕ, String, Bool, true, false, ◌&&◌, Option, none, some, List, [], ◌∷◌, ◌==◌, str_eq, ◌≡◌, select,
  if◌then◌else◌,
}

-- The two columns of the primary key.
pub record Keyed (R : Type 0) : Type 0 where
  pub user : R → ℕ
  pub name : R → String

module _ {R : Type 0} ⦃k : Keyed R⦄ where
  -- WHERE user_id = $1 AND <name> = $2
  abbrev pub at : ℕ → String → R → Bool
  at u n r = k.user r == u && str_eq (k.name r) n

  -- SELECT … WHERE user_id = $1 AND <name> = $2, at most one row.
  unfoldable pub find : ℕ → String → List R → Option R
  find u n [] = none
  find u n (r ∷ rs) = if at u n r then some r else find u n rs

  -- INSERT … ON CONFLICT (user_id, <name>) DO UPDATE SET every column.
  unfoldable pub put : R → List R → List R
  put r [] = r ∷ []
  put r (x ∷ xs) = if at (k.user r) (k.name r) x then r ∷ xs else x ∷ put r xs

  -- The primary key: no two rows agree on it.
  abbrev pub Unique : List R → Type 0
  Unique [] = Unit
  Unique (r ∷ rs) = (find (k.user r) (k.name r) rs ≡ none) × Unique rs
