-- ===== src/Social/Roles/Erased.antt =====
-- What the statements of an erasure do to roles, owners and visibility.
use podcast_backend.Prelude.{
  ℕ, ℤ, Bool, true, false, not, Option, none, some, ◌==◌, ◌≡◌, refl, ap, ◌∙◌, arith, if◌then◌else◌,
}
use podcast_backend.Db.Keys.{get}
use podcast_backend.Db.Keys.Laws.{get-select, get-modify, get-map}
use podcast_backend.Social.Rows.{
  SocialGroup, SocialGroupMember, group_key, member_key, pair, same_pair,
}
use podcast_backend.Social.Handler.{GroupTables}
use podcast_backend.Social.Erase.{
  transfer_group_owner, promote_group_member_to_owner, delete_group_memberships_for_user,
  clear_group_invite_attribution_for_user, clear_invite,
}
use podcast_backend.Social.Roles.{
  role_of, role_in, each_role, role-modify, owner_of, owner_in, visibility_of, visibility_in,
}

pub clear_invite-key :
    (u : ℕ) (m : SocialGroupMember)
    → pair (clear_invite u m).group_id (clear_invite u m).user_id ≡ pair m.group_id m.user_id
unfolding clear_invite
clear_invite-key u m = ground arith

clear_invite-role : (u : ℕ) (m : SocialGroupMember) → (clear_invite u m).role ≡ m.role
unfolding clear_invite
clear_invite-role u m = ground arith

module _ (h w : ℕ) (t : GroupTables) where
  pub role_of-promote :
      (g v : ℕ)
      → role_of h w (promote_group_member_to_owner g v t)
        ≡ (if same_pair (h, w) (g, v) then each_role (λ r. 2) (role_of h w t) else role_of h w t)
  unfolding role_of promote_group_member_to_owner
  role_of-promote g v =
      role-modify (pair g v) (pair h w) (λ m. record m { role = 2 }) (λ r. 2) t.members (λ m. refl)
        (λ m. refl)

  pub role_of-transfer :
      (now : ℤ) (g v : ℕ) → role_of h w (transfer_group_owner now g v t) ≡ role_of h w t
  unfolding role_of transfer_group_owner
  role_of-transfer now g v = refl

  pub role_of-forget :
      (u : ℕ)
      → role_of h w (delete_group_memberships_for_user u t)
        ≡ (if w == u then none else role_of h w t)
  unfolding role_of delete_group_memberships_for_user
  role_of-forget u =
      ap role_in (get-select (λ (k : ℕ × ℕ). not (k.1 == u)) (pair h w) t.members) ∙ split (w == u)
    where
      split :
          (b : Bool)
          → role_in (if not b then get (pair h w) t.members else none)
            ≡ (if b then none else role_in (get (pair h w) t.members))
      split true = refl
      split false = refl

  pub role_of-clear :
      (u : ℕ) → role_of h w (clear_group_invite_attribution_for_user u t) ≡ role_of h w t
  unfolding role_of clear_group_invite_attribution_for_user
  role_of-clear u =
      ap role_in (get-map (pair h w) (clear_invite u) t.members (clear_invite-key u))
      ∙ split (get (pair h w) t.members)
    where
      split :
          (o : Option SocialGroupMember)
          → role_in (elim o [ none ↦ none | some m ↦ some (clear_invite u m) ]) ≡ role_in o
      split none = refl
      split (some m) = ap some (clear_invite-role u m)

-- A transfer changes the owner of the one group, and no visibility.
module _ (h : ℕ) (t : GroupTables) (now : ℤ) (g v : ℕ) where
  pub owner_of-transfer :
      owner_of h (transfer_group_owner now g v t)
      ≡ (if h == g then each_role (λ o. v) (owner_of h t) else owner_of h t)
  unfolding owner_of transfer_group_owner
  owner_of-transfer =
      ap owner_in (get-modify g h _ t.groups (λ r. refl)) ∙ split (h == g) (get h t.groups)
    where
      split :
          (b : Bool) (o : Option SocialGroup)
          → owner_in (
              if b
              then elim o [
                | none ↦ none
                | some x ↦ some (record x { owner_user_id = v; updated_at = now })
              ]
              else o)
            ≡ (if b then each_role (λ o'. v) (owner_in o) else owner_in o)
      split true none = refl
      split true (some x) = refl
      split false o = refl

  pub visibility_of-transfer : visibility_of h (transfer_group_owner now g v t) ≡ visibility_of h t
  unfolding visibility_of transfer_group_owner
  visibility_of-transfer =
      ap visibility_in (get-modify g h _ t.groups (λ r. refl)) ∙ split (h == g) (get h t.groups)
    where
      split :
          (b : Bool) (o : Option SocialGroup)
          → visibility_in (
              if b
              then elim o [
                | none ↦ none
                | some x ↦ some (record x { owner_user_id = v; updated_at = now })
              ]
              else o)
            ≡ visibility_in o
      split true none = refl
      split true (some x) = refl
      split false o = refl

-- The owner's row and the members' are other tables.
module _ (h g v : ℕ) (t : GroupTables) where
  pub owner_of-promote : owner_of h (promote_group_member_to_owner g v t) ≡ owner_of h t
  unfolding owner_of promote_group_member_to_owner
  owner_of-promote = refl

  pub visibility_of-promote :
      visibility_of h (promote_group_member_to_owner g v t) ≡ visibility_of h t
  unfolding visibility_of promote_group_member_to_owner
  visibility_of-promote = refl

module _ (h u : ℕ) (t : GroupTables) where
  pub owner_of-forget : owner_of h (delete_group_memberships_for_user u t) ≡ owner_of h t
  unfolding owner_of delete_group_memberships_for_user
  owner_of-forget = refl

  pub visibility_of-forget :
      visibility_of h (delete_group_memberships_for_user u t) ≡ visibility_of h t
  unfolding visibility_of delete_group_memberships_for_user
  visibility_of-forget = refl

  pub owner_of-clear : owner_of h (clear_group_invite_attribution_for_user u t) ≡ owner_of h t
  unfolding owner_of clear_group_invite_attribution_for_user
  owner_of-clear = refl

  pub visibility_of-clear :
      visibility_of h (clear_group_invite_attribution_for_user u t) ≡ visibility_of h t
  unfolding visibility_of clear_group_invite_attribution_for_user
  visibility_of-clear = refl
