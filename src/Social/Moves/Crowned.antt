-- ===== src/Social/Moves/Crowned.antt =====
-- Who becomes the owner of a group, and that an erasure keeps roles and ownership in agreement, but
-- for the user who is erased.
use podcast_backend.Prelude.{
  ℕ, ℤ, Bool, true, false, Option, none, some, String, ◌==◌, ◌≡◌, ◌≢◌, ◌⊎◌, refl, sym, ap, subst,
  ◌∙◌, arith, if◌then◌else◌, Bool-cases, inl, inr, some-inj,
}
use podcast_backend.Social.Rows.{same_pair}
use podcast_backend.Social.Handler.{GroupTables}
use podcast_backend.Social.GroupQueries.{create_social_group, upsert_group_member}
use podcast_backend.Social.Erase.{
  promote_group_member_to_owner, transfer_group_owner, delete_group_memberships_for_user,
}
use podcast_backend.Social.Roles.{role_of, owner_of, each_role, role_of-upsert, owner_of-upsert}
use podcast_backend.Social.Roles.Owner.{role_of-create, owner_of-create}
use podcast_backend.Social.Roles.Erased.{
  role_of-promote, role_of-transfer, role_of-forget, role_of-clear, owner_of-transfer,
  owner_of-promote, owner_of-forget, owner_of-clear,
}
use podcast_backend.Social.Moves.Erasing.{Erasing}
use podcast_backend.Social.Moves.Tidy.{Tidy, new_id}
use podcast_backend.Social.Moves.Seat.{Crown}
use podcast_backend.Social.Moves.Owned.{Owned, same-Owned, Crown-Owned, drop-Owned}

-- An update of a row that is there.
each-set :
    (x : ℕ) (b : Bool) (o : Option ℕ)
    → (b ≡ true → o ≢ none)
    → (if b then each_role (λ r. x) o else o) ≡ (if b then some x else o)
each-set x false o there = refl
each-set x true none there = absurd (there refl refl)
each-set x true (some r) there = refl

pub some-none : {o : Option ℕ} {r : ℕ} → o ≡ some r → o ≢ none
some-none e n = cc

pub pass-Crown :
    (now : ℤ) (g v : ℕ) (t : GroupTables)
    → owner_of g t ≢ none
    → role_of g v t ≡ some 1
    → Crown g v t (promote_group_member_to_owner g v (transfer_group_owner now g v t))
pass-Crown now g v t there member = record {
  roles = λ h w.
      role_of-promote h w (transfer_group_owner now g v t) g v
      ∙ rw (role_of-transfer h w t now g v) (
          each-set 2 (same_pair (h, w) (g, v)) (role_of h w t) λ same.
            let group : h ≡ g = ground arith in
            let user : w ≡ v = ground arith in
            some-none (ap (λ k. role_of k w t) group ∙ ap (λ k. role_of g k t) user ∙ member));
  owners = λ h.
      owner_of-promote h g v _
      ∙ owner_of-transfer h t now g v
      ∙ each-set v (h == g) (owner_of h t) λ same.
        let group : h ≡ g = ground arith in subst (λ k. owner_of k t ≢ none) (sym group) there;
}

pub create-Crown :
    (now : ℤ) (u : ℕ) (title description : String) (v : ℕ) (podcast_uuid podcast_title : String)
    (t : GroupTables)
    → Tidy t
    → Owned (λ v. ⊥) t
    → Crown t.next_id u t (
        upsert_group_member now t.next_id u 2 none
          (create_social_group now u title description v podcast_uuid podcast_title t).1)
create-Crown now u title description v podcast_uuid podcast_title t d o = record {
  roles = λ h w.
      role_of-upsert t.next_id u h w _ now 2 none
      ∙ rw
          (
            role_of-create t.next_id t now u title description v podcast_uuid podcast_title u,
            role_of-create h t now u title description v podcast_uuid podcast_title w,
            o.exists t.next_id u (new_id t d),
          )
          refl;
  owners = λ h.
      owner_of-upsert h t.next_id u _ now 2 none
      ∙ owner_of-create h t now u title description v podcast_uuid podcast_title
      ∙ ground arith;
}

module _ (u : ℕ) where
  pub forget-cases :
      (h w : ℕ) (t : GroupTables)
      → ((w ≡ u) × (role_of h w (delete_group_memberships_for_user u t) ≡ none))
        ⊎ ((w ≢ u) × (role_of h w (delete_group_memberships_for_user u t) ≡ role_of h w t))
  forget-cases h w t = elim (Bool-cases (w == u)) [
    | inl same ↦ inl (ground arith, role_of-forget h w t u ∙ rw same refl)
    | inr other ↦ inr ((λ e. ground arith), role_of-forget h w t u ∙ rw other refl)
  ]

  pub Erasing-Owned :
      (t t' : GroupTables) → Erasing u t t' → Owned (λ v. v ≡ u) t → Owned (λ v. v ≡ u) t'
  Erasing-Owned t _ (Erasing.pass now g v own public member other) o =
      Crown-Owned _ t _ o g v (pass-Crown now g v t (some-none own) member)
        (λ w e. elim (o.owned g w e) [ inl stale ↦ stale | inr own' ↦ some-inj (sym own' ∙ own) ])
  Erasing-Owned t _ (Erasing.drop g own alone) o = drop-Owned _ t o g
  Erasing-Owned t _ (Erasing.forget free) o = record {
    owned = λ h w e. elim (forget-cases h w t) [
      | inl (same, none') ↦ inl same
      | inr (other, kept) ↦ elim (o.owned h w (sym kept ∙ e)) [
        | inl stale ↦ inl stale
        | inr own ↦ inr (owner_of-forget h u t ∙ own)
      ]
    ];
    owns = λ h w e.
        let own = sym (owner_of-forget h u t) ∙ e in
        elim (forget-cases h w t) [
          | inl (same, none') ↦ absurd (free h (subst (λ k. owner_of h t ≡ some k) same own))
          | inr (other, kept) ↦ kept ∙ o.owns h w own
        ];
    exists = λ h w e. elim (forget-cases h w t) [
      | inl (same, none') ↦ none'
      | inr (other, kept) ↦ kept ∙ o.exists h w (sym (owner_of-forget h u t) ∙ e)
    ];
  }
  Erasing-Owned t _ Erasing.clear o =
      same-Owned _ t _ o (λ h w. role_of-clear h w t u) (λ h. owner_of-clear h u t)
