-- ===== src/Social/Links.antt =====
-- What a user may do to the follow graph and to the blocks: the contract of their endpoints.
use podcast_backend.Prelude.{
  ℕ, ℤ, String, not, false, ◌||◌, some, List, ◌==◌, ◌≡◌, ◌≢◌, ◌⊎◌, select,
}
use podcast_backend.Social.Rows.{Account, SocialProfile, SocialFollow, SocialRelationship}
use podcast_backend.Social.Handler.{Store}
use podcast_backend.Social.Queries.{
  profile_by_handle, is_blocked_either, upsert_follow, delete_follow, approve_follow,
  upsert_social_relationship, delete_social_relationship,
}
use podcast_backend.Social.Guards.{Context, caller}
use podcast_backend.Social.Graph.{status_for}

-- The moves of the user u at the time now, on the two tables.
pub data Link (now : ℤ) (u : ℕ) (s : Store)
    : List SocialFollow → List SocialRelationship → Type 0 where
  -- Of another user, where neither blocks the other; the target's profile decides the status.
  follow :
      (handle : String) (t : SocialProfile)
      → profile_by_handle handle s.profiles ≡ some t
      → t.user_id ≢ u
      → is_blocked_either u t.user_id s.relationships ≡ false
      → Link now u s (upsert_follow now u t.user_id (status_for t) s.follows).1 s.relationships
  unfollow : (w : ℕ) → Link now u s (delete_follow u w s.follows) s.relationships
  approve : (w : ℕ) → Link now u s (approve_follow now w u s.follows).1 s.relationships
  decline : (w : ℕ) → Link now u s (delete_follow w u s.follows) s.relationships
  -- A block severs both directions.
  block :
      (w : ℕ)
      → w ≢ u
      → Link now u s
          (delete_follow w u (delete_follow u w s.follows))
          (upsert_social_relationship u w 0 s.relationships)
  mute : (w : ℕ) → w ≢ u → Link now u s s.follows (upsert_social_relationship u w 1 s.relationships)
  unrelate :
      (w kind : ℕ) → Link now u s s.follows (delete_social_relationship u w kind s.relationships)
  erase :
      Link now u s
        (select (λ f. not (f.follower_user_id == u || f.followee_user_id == u)) s.follows)
        (select (λ r. not (r.user_id == u || r.target_user_id == u)) s.relationships)

abbrev pub Links : Context → Store → Store → Type 0
Links c s s' =
    ((s'.follows ≡ s.follows) × (s'.relationships ≡ s.relationships))
    ⊎ ((a : Account) × (caller c s ≡ some a) × Link c.now a.id s s'.follows s'.relationships)
