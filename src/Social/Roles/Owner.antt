-- ===== src/Social/Roles/Owner.antt =====
-- What creating, changing and deleting a group do to roles, owners and visibility.
use podcast_backend.Prelude.{
  ℕ, ℤ, String, Bool, true, false, Option, none, some, ◌==◌, ◌≡◌, ◌⊎◌, refl, ap, ◌∙◌, inl, inr,
  arith, if◌then◌else◌, Bool-cases,
}
use podcast_backend.Db.Keys.{get}
use podcast_backend.Db.Keys.Laws.{get-modify}
use podcast_backend.Social.Rows.{SocialGroup, group_key}
use podcast_backend.Social.Handler.{GroupTables}
use podcast_backend.Social.GroupQueries.{
  create_social_group, update_social_group, delete_social_group, set_group, drop_group, owns,
}
use podcast_backend.Social.Roles.{
  role_of, each_role, owner_of, owner_in, visibility_of, visibility_in,
}

module _ (g u : ℕ) (t : GroupTables) where
  owns-owner_of : owns g u t.groups ≡ true → owner_of g t ≡ some u
  unfolding owns owner_of
  owns-owner_of = at (get g t.groups)
    where
      at :
          (o : Option SocialGroup)
          → elim o [ none ↦ false | some x ↦ x.owner_user_id == u ] ≡ true
          → owner_in o ≡ some u
      at none e = absurd (cc)
      at (some x) e = ap some (ground arith)

  -- A guarded statement is the owner's, or does nothing.
  pub delete-guard :
      ((owner_of g t ≡ some u) × ((delete_social_group g u t).1 ≡ drop_group g t))
      ⊎ ((delete_social_group g u t).1 ≡ t)
  unfolding delete_social_group
  delete-guard = elim (Bool-cases (owns g u t.groups)) [
    | inl e ↦ inl (owns-owner_of e, rw e refl)
    | inr e ↦ inr (rw e refl)
  ]

  pub update-guard :
      (now : ℤ) (title description : String) (v : ℕ)
      → ((owner_of g t ≡ some u)
          × ((update_social_group now g u title description v t).1
              ≡ set_group now g title description v t))
        ⊎ ((update_social_group now g u title description v t).1 ≡ t)
  unfolding update_social_group
  update-guard now title description v = elim (Bool-cases (owns g u t.groups)) [
    | inl e ↦ inl (owns-owner_of e, rw e refl)
    | inr e ↦ inr (rw e refl)
  ]

module _ (h : ℕ) (t : GroupTables) (now : ℤ) (title description : String) (v : ℕ) where
  pub role_of-set : (w g : ℕ) → role_of h w (set_group now g title description v t) ≡ role_of h w t
  unfolding role_of set_group
  role_of-set w g = refl

  pub owner_of-set : (g : ℕ) → owner_of h (set_group now g title description v t) ≡ owner_of h t
  unfolding owner_of set_group
  owner_of-set g =
      ap owner_in (get-modify g h _ t.groups (λ r. refl)) ∙ split (h == g) (get h t.groups)
    where
      split :
          (b : Bool) (o : Option SocialGroup)
          → owner_in (
              if b
              then elim o [
                | none ↦ none
                | some x ↦ some (record x {
                  title = title;
                  description = description;
                  visibility = v;
                  updated_at = now;
                })
              ]
              else o)
            ≡ owner_in o
      split true none = refl
      split true (some x) = refl
      split false o = refl

  pub visibility_of-set :
      (g : ℕ)
      → visibility_of h (set_group now g title description v t)
        ≡ (if h == g then each_role (λ o. v) (visibility_of h t) else visibility_of h t)
  unfolding visibility_of set_group
  visibility_of-set g =
      ap visibility_in (get-modify g h _ t.groups (λ r. refl)) ∙ split (h == g) (get h t.groups)
    where
      split :
          (b : Bool) (o : Option SocialGroup)
          → visibility_in (
              if b
              then elim o [
                | none ↦ none
                | some x ↦ some (record x {
                  title = title;
                  description = description;
                  visibility = v;
                  updated_at = now;
                })
              ]
              else o)
            ≡ (if b then each_role (λ o'. v) (visibility_in o) else visibility_in o)
      split true none = refl
      split true (some x) = refl
      split false o = refl

module _ (h : ℕ) (t : GroupTables) (now : ℤ) (u : ℕ) (title description : String) (v : ℕ)
    (podcast_uuid podcast_title : String) where
  pub role_of-create :
      (w : ℕ)
      → role_of h w (create_social_group now u title description v podcast_uuid podcast_title t).1
        ≡ role_of h w t
  unfolding role_of create_social_group
  role_of-create w = refl

  pub owner_of-create :
      owner_of h (create_social_group now u title description v podcast_uuid podcast_title t).1
      ≡ (if t.next_id == h then some u else owner_of h t)
  unfolding owner_of create_social_group get
  owner_of-create = elim (Bool-cases (t.next_id == h)) [ inl e ↦ rw e refl | inr e ↦ rw e refl ]

  pub visibility_of-create :
      visibility_of h (create_social_group now u title description v podcast_uuid podcast_title t).1
      ≡ (if t.next_id == h then some v else visibility_of h t)
  unfolding visibility_of create_social_group get
  visibility_of-create = elim (Bool-cases (t.next_id == h)) [
    | inl e ↦ rw e refl
    | inr e ↦ rw e refl
  ]
