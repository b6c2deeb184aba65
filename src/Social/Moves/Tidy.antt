-- ===== src/Social/Moves/Tidy.antt =====
-- The tables under their constraints: primary keys, the identity column, the two visibilities.
use podcast_backend.Prelude.{
  ℕ, ℤ, ◌<◌, Bool, true, false, not, Option, none, some, List, String, ◌==◌, ◌≡◌, ◌≢◌, refl, sym,
  subst, ◌∙◌, some-inj, arith, if◌then◌else◌, Bool-cases, inl, inr,
}
use podcast_backend.Db.Keys.{get}
use podcast_backend.Db.Keys.Unique.{Unique, select-Unique, remove-Unique, modify-Unique, map-Unique}
use podcast_backend.Social.Rows.{SocialGroup, SocialGroupMember, group_key, member_key, pair}
use podcast_backend.Social.Handler.{GroupTables}
use podcast_backend.Social.GroupQueries.{
  create_social_group, set_group, drop_group, upsert_group_member, put_member, with_role,
  delete_group_member, set_group_member_notify, with_notify,
}
use podcast_backend.Social.Erase.{
  transfer_group_owner, promote_group_member_to_owner, delete_group_memberships_for_user,
  clear_group_invite_attribution_for_user, clear_invite,
}
use podcast_backend.Social.Roles.{
  owner_of, owner_in, visibility_of, each_role, with_role-key, with_notify-key, owner_of-drop,
  visibility_of-drop,
}
use podcast_backend.Social.Roles.Owner.{
  owner_of-set, visibility_of-set, owner_of-create, visibility_of-create,
}
use podcast_backend.Social.Roles.Erased.{
  clear_invite-key, owner_of-transfer, visibility_of-transfer,
}
use podcast_backend.Social.Moves.{IsVisibility}
use podcast_backend.Social.Moves.Erasing.{Erasing}

pub record Tidy (t : GroupTables) : Type 0 where
  pub groups : Unique ℕ t.groups
  pub members : Unique (ℕ × ℕ) t.members
  pub visible : (g v : ℕ) → visibility_of g t ≡ some v → IsVisibility v
  pub fresh : (g : ℕ) → owner_of g t ≢ none → g < t.next_id

-- A statement on the members alone.
with_members :
    (t : GroupTables) (rows : List SocialGroupMember)
    → Tidy t
    → Unique (ℕ × ℕ) rows
    → Tidy (record t { members = rows })
unfolding owner_of visibility_of
with_members t rows d u = record {
  groups = d.groups;
  members = u;
  visible = d.visible;
  fresh = d.fresh;
}

put_member-Unique :
    (now : ℤ) (g u role : ℕ) (by : Option ℕ) (o : Option SocialGroupMember)
    (rows : List SocialGroupMember)
    → get (pair g u) rows ≡ o
    → Unique (ℕ × ℕ) rows
    → Unique (ℕ × ℕ) (put_member now g u role by o rows)
unfolding put_member
put_member-Unique now g u role by none rows e d = (e, d)
put_member-Unique now g u role by (some m) rows e d =
    modify-Unique (ℕ × ℕ) (pair g u) (with_role role) rows (with_role-key role) d

-- A group's visibility, where its own is replaced by an allowed one.
set-visible :
    {v w : ℕ}
    → IsVisibility v
    → (o : Option ℕ) (here : Bool) → (o ≡ some w → IsVisibility w)
    → (if here then each_role (λ o'. v) o else o) ≡ some w
    → IsVisibility w
set-visible allowed o false known e = known e
set-visible allowed none true known e = absurd (cc)
set-visible allowed (some x) true known e = subst IsVisibility (some-inj e) allowed

new-visible :
    {v w : ℕ}
    → IsVisibility v
    → (o : Option ℕ) (here : Bool) → (o ≡ some w → IsVisibility w)
    → (if here then some v else o) ≡ some w
    → IsVisibility w
new-visible allowed o false known e = known e
new-visible allowed o true known e = subst IsVisibility (some-inj e) allowed

no-group : (g : ℕ) (t : GroupTables) → owner_of g t ≡ none → get g t.groups ≡ none
unfolding owner_of
no-group g t e = at (get g t.groups) e
  where
    at : (o : Option SocialGroup) → owner_in o ≡ none → o ≡ none
    at none e = refl
    at (some x) e = absurd (cc)

module _ (t : GroupTables) (d : Tidy t) where
  pub upsert-Tidy :
      (now : ℤ) (g u role : ℕ) (by : Option ℕ) → Tidy (upsert_group_member now g u role by t)
  unfolding upsert_group_member
  upsert-Tidy now g u role by =
      with_members t _ d
        (put_member-Unique now g u role by (get (pair g u) t.members) t.members refl d.members)

  pub delete-Tidy : (g u : ℕ) → Tidy (delete_group_member g u t)
  unfolding delete_group_member
  delete-Tidy g u = with_members t _ d (remove-Unique (ℕ × ℕ) (pair g u) t.members d.members)

  pub notify-Tidy : (g u : ℕ) (on : Bool) → Tidy (set_group_member_notify g u on t).1
  unfolding set_group_member_notify
  notify-Tidy g u on =
      with_members t _ d
        (modify-Unique (ℕ × ℕ) (pair g u) (with_notify on) t.members (with_notify-key on) d.members)

  pub promote-Tidy : (g v : ℕ) → Tidy (promote_group_member_to_owner g v t)
  unfolding promote_group_member_to_owner
  promote-Tidy g v =
      with_members t _ d (modify-Unique (ℕ × ℕ) (pair g v) _ t.members (λ m. refl) d.members)

  pub forget-Tidy : (u : ℕ) → Tidy (delete_group_memberships_for_user u t)
  unfolding delete_group_memberships_for_user
  forget-Tidy u =
      with_members t _ d (select-Unique (ℕ × ℕ) (λ k. not (k.1 == u)) t.members d.members)

  pub clear-Tidy : (u : ℕ) → Tidy (clear_group_invite_attribution_for_user u t)
  unfolding clear_group_invite_attribution_for_user
  clear-Tidy u =
      with_members t _ d
        (map-Unique (ℕ × ℕ) (clear_invite u) t.members (clear_invite-key u) d.members)

  pub drop-Tidy : (g : ℕ) → Tidy (drop_group g t)
  unfolding drop_group
  drop-Tidy g = record {
    groups = remove-Unique ℕ g t.groups d.groups;
    members = select-Unique (ℕ × ℕ) (λ k. not (k.0 == g)) t.members d.members;
    visible = λ h v e. d.visible h v (ground (arith, visibility_of-drop g h t));
    fresh = λ h e. d.fresh h (λ n. ground (arith, owner_of-drop g h t));
  }

  pub transfer-Tidy : (now : ℤ) (g v : ℕ) → Tidy (transfer_group_owner now g v t)
  unfolding transfer_group_owner
  transfer-Tidy now g v = record {
    groups = modify-Unique ℕ g _ t.groups (λ r. refl) d.groups;
    members = d.members;
    visible = λ h w e. d.visible h w (ground (arith, visibility_of-transfer h t now g v));
    fresh = λ h e. d.fresh h (λ n. ground (arith, owner_of-transfer h t now g v));
  }

  pub set-Tidy :
      (now : ℤ) (g : ℕ) (title description : String) (v : ℕ)
      → IsVisibility v
      → Tidy (set_group now g title description v t)
  unfolding set_group
  set-Tidy now g title description v allowed = record {
    groups = modify-Unique ℕ g _ t.groups (λ r. refl) d.groups;
    members = d.members;
    visible = λ h w e.
        set-visible allowed (visibility_of h t) (h == g) (d.visible h w)
          (sym (visibility_of-set h t now title description v g) ∙ e);
    fresh = λ h e. d.fresh h (λ n. ground (arith, owner_of-set h t now title description v g));
  }

  -- The identity column has not given this id before.
  pub new_id : owner_of t.next_id t ≡ none
  new_id = at (owner_of t.next_id t) refl
    where
      at : (o : Option ℕ) → owner_of t.next_id t ≡ o → o ≡ none
      at none e = refl
      at (some u) e = absurd (omega (arith, d.fresh t.next_id (λ n. cc)))

  pub create-Tidy :
      (now : ℤ) (u : ℕ) (title description : String) (v : ℕ) (podcast_uuid podcast_title : String)
      → IsVisibility v
      → Tidy (create_social_group now u title description v podcast_uuid podcast_title t).1
  unfolding create_social_group
  create-Tidy now u title description v podcast_uuid podcast_title allowed = record {
    groups = (no-group t.next_id t new_id, d.groups);
    members = d.members;
    visible = λ h w e.
        new-visible allowed (visibility_of h t) (t.next_id == h) (d.visible h w)
          (sym (visibility_of-create h t now u title description v podcast_uuid podcast_title) ∙ e);
    fresh = λ h e. elim (Bool-cases (t.next_id == h)) [
      | inl same ↦ ground arith
      | inr other ↦
          let older = d.fresh h (λ n.
            ground
              (arith, owner_of-create h t now u title description v podcast_uuid podcast_title)) in
          omega arith
    ];
  }

pub Erasing-Tidy : {u : ℕ} (t t' : GroupTables) → Erasing u t t' → Tidy t → Tidy t'
Erasing-Tidy t _ (Erasing.pass now g v own public role other) d =
    promote-Tidy _ (transfer-Tidy t d now g v) g v
Erasing-Tidy t _ (Erasing.drop g own alone) d = drop-Tidy t d g
Erasing-Tidy {u} t _ (Erasing.forget free) d = forget-Tidy t d u
Erasing-Tidy {u} t _ Erasing.clear d = clear-Tidy t d u
