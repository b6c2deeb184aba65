-- ===== src/Social/Moves/Erasing.antt =====
-- What an erasure does to the groups: a sequence of these steps for the user u.
use podcast_backend.Prelude.{ℕ, ℤ, some, ◌≡◌, ◌≢◌}
use podcast_backend.Social.Handler.{GroupTables}
use podcast_backend.Social.GroupQueries.{drop_group}
use podcast_backend.Social.Erase.{
  transfer_group_owner, promote_group_member_to_owner, delete_group_memberships_for_user,
  clear_group_invite_attribution_for_user,
}
use podcast_backend.Social.Roles.{role_of, owner_of, visibility_of}

pub data Erasing (u : ℕ) (t : GroupTables) : GroupTables → Type 0 where
  -- A public group goes to one of its members.
  pass :
      (now : ℤ) (g v : ℕ)
      → owner_of g t ≡ some u
      → visibility_of g t ≡ some 2
      → role_of g v t ≡ some 1
      → v ≢ u
      → Erasing u t (promote_group_member_to_owner g v (transfer_group_owner now g v t))
  -- A public group with another member is not dropped.
  drop :
      (g : ℕ)
      → owner_of g t ≡ some u
      → (visibility_of g t ≡ some 2 → (v : ℕ) → v ≢ u → role_of g v t ≢ some 1)
      → Erasing u t (drop_group g t)
  -- The memberships go last, when no group is left to u.
  forget : ((g : ℕ) → owner_of g t ≢ some u) → Erasing u t (delete_group_memberships_for_user u t)
  clear : Erasing u t (clear_group_invite_attribution_for_user u t)

pub data Erasure (u : ℕ) (t : GroupTables) : GroupTables → Type 0 where
  done : Erasure u t t
  step : (m t' : GroupTables) → Erasure u t m → Erasing u m t' → Erasure u t t'

pub append : {u : ℕ} {t m t' : GroupTables} → Erasure u t m → Erasure u m t' → Erasure u t t'
append e Erasure.done = e
append e (Erasure.step m t' f s) = Erasure.step m t' (append e f) s

-- What each step keeps, the erasure keeps.
pub Erasure-ind :
    (P : GroupTables → Type 0) {u : ℕ} {t t' : GroupTables}
    → ((a b : GroupTables) → Erasing u a b → P a → P b)
    → Erasure u t t'
    → P t
    → P t'
Erasure-ind P each Erasure.done p = p
Erasure-ind P each (Erasure.step m t' e s) p = each m t' s (Erasure-ind P each e p)
