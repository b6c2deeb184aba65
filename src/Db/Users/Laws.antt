-- ===== src/Db/Users/Laws.antt =====
-- Reads of a user's row after a write to it.
use podcast_backend.Prelude.{ℕ, ◌==◌, false, some, List, [], ◌∷◌, ◌≡◌, refl, arith}
use podcast_backend.Db.Rows.{User}
use podcast_backend.Db.Users.{find_user, update_user}

-- An update that keeps the id and the deletion mark.
pub record KeepsIdentity (f : User → User) : Type 0 where
  pub same_id : (u : User) → (f u).id ≡ u.id
  pub same_deleted : (u : User) → (f u).deleted ≡ u.deleted

module _ (f : User → User) (keeps : KeepsIdentity f) where
  pub find_user-update_user :
      (id : ℕ) (us : List User) (u : User)
      → find_user id us ≡ some u
      → find_user id (update_user id f us) ≡ some (f u)
  unfolding find_user update_user
  find_user-update_user id [] u h = ground arith
  find_user-update_user id (x ∷ us) u h =
      ground (arith, find_user-update_user id us u, keeps.same_id x, keeps.same_deleted x)

  -- Another user's row is as before.
  pub find_user-update_user_ne :
      (id other : ℕ) (us : List User)
      → (other == id) ≡ false
      → find_user other (update_user id f us) ≡ find_user other us
  unfolding find_user update_user
  find_user-update_user_ne id other [] h = refl
  find_user-update_user_ne id other (x ∷ us) h =
      ground (arith, find_user-update_user_ne id other us h, keeps.same_id x, keeps.same_deleted x)
