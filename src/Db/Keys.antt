-- ===== src/Db/Keys.antt =====
-- A Postgres table under a primary key of any type: the rows as a list.
pub mod Laws
pub mod Unique
pub mod Tally
pub mod There
pub mod Weigh
use podcast_backend.Prelude.{
  Bool, true, false, Option, none, some, List, [], ◌∷◌, ◌≡◌, ◌↔◌, not, select, if◌then◌else◌,
}

-- The columns of the primary key, and their test for equality.
pub record Key (K R : Type 0) : Type 0 where
  pub key : R → K
  pub same : K → K → Bool
  pub same_iff : (a b : K) → (same a b ≡ true) ↔ (a ≡ b)

module _ {K R : Type 0} ⦃k : Key K R⦄ where
  -- WHERE <key> = $1
  abbrev pub at : K → R → Bool
  at i r = k.same (k.key r) i

  -- SELECT … WHERE <key> = $1, at most one row.
  unfoldable pub get : K → List R → Option R
  get i [] = none
  get i (r ∷ rs) = if at i r then some r else get i rs

  -- DELETE … WHERE <key> = $1
  unfoldable pub remove : K → List R → List R
  remove i rows = select (λ r. not (at i r)) rows

  -- UPDATE … WHERE <key> = $1
  unfoldable pub modify : K → (R → R) → List R → List R
  modify i f [] = []
  modify i f (r ∷ rs) = (if at i r then f r else r) ∷ modify i f rs
