-- ===== src/Social/Moves/Tally.antt =====
-- How many active members a group has, after each statement.
use podcast_backend.Prelude.{
  ℕ, ℤ, ◌+◌, ◌≤◌, Bool, ◌&&◌, not, Option, none, some, List, map, ◌==◌, ◌≡◌, refl, sym, ap, ◌∙◌,
  arith, select, some-inj,
}
use podcast_backend.Db.Keys.{get, remove, modify}
use podcast_backend.Db.Keys.Laws.{get-key}
use podcast_backend.Db.Keys.Unique.{Unique}
use podcast_backend.Db.Keys.Tally.{
  one, tally, length-select, tally-select, tally-map, tally-modify, tally-modify-same,
}
use podcast_backend.Social.Rows.{SocialGroupMember, member_key, pair, same_pair}
use podcast_backend.Social.Handler.{GroupTables}
use podcast_backend.Social.GroupQueries.{
  count_group_members, is_active_role, upsert_group_member, put_member, with_role,
  delete_group_member, drop_group, set_group_member_notify, with_notify,
}
use podcast_backend.Social.Erase.{
  promote_group_member_to_owner, delete_group_memberships_for_user,
  clear_group_invite_attribution_for_user, clear_invite,
}
use podcast_backend.Social.Roles.{role_of, role_in}
use podcast_backend.Social.Moves.Tidy.{Tidy}

abbrev counts : ℕ → SocialGroupMember → Bool
counts g m = m.group_id == g && is_active_role m.role

-- The members of g, over a table's rows.
abbrev pub active : ℕ → GroupTables → ℕ
active g t = count_group_members g t.members

module _ (g : ℕ) where
  count-tally : (rows : List SocialGroupMember) → count_group_members g rows ≡ tally (counts g) rows
  unfolding count_group_members
  count-tally rows = length-select (counts g) rows

  with_role-counts :
      (h role : ℕ) (m : SocialGroupMember)
      → m.group_id ≡ h
      → one (counts g (with_role role m)) ≤ one (counts g m) + one (h == g && is_active_role role)
  unfolding with_role
  with_role-counts h role m e = ground arith

  with_notify-counts :
      (on : Bool) (m : SocialGroupMember) → counts g (with_notify on m) ≡ counts g m
  unfolding with_notify
  with_notify-counts on m = ground arith

  clear_invite-counts : (u : ℕ) (m : SocialGroupMember) → counts g (clear_invite u m) ≡ counts g m
  unfolding clear_invite
  clear_invite-counts u m = ground arith

  promoted-counts :
      (m : SocialGroupMember)
      → m.role ≡ 1
      → one (counts g (record m { role = 2 })) ≡ one (counts g m)
  promoted-counts m e = ground arith

  promote-tally :
      (h v : ℕ) (o : Option SocialGroupMember) (rows : List SocialGroupMember)
      → get (pair h v) rows ≡ o
      → role_in o ≡ some 1
      → Unique (ℕ × ℕ) rows
      → tally (counts g) (modify (pair h v) (λ m. record m { role = 2 }) rows)
        ≤ tally (counts g) rows
  promote-tally h v none rows e r d = absurd (cc)
  promote-tally h v (some m) rows e r d = omega (
    arith,
    tally-modify (counts g) (pair h v) (λ x. record x { role = 2 }) m rows d e,
    promoted-counts m (some-inj r),
  )

  put_member-tally :
      (now : ℤ) (h x role : ℕ) (by : Option ℕ) (o : Option SocialGroupMember)
      (rows : List SocialGroupMember)
      → get (pair h x) rows ≡ o
      → Unique (ℕ × ℕ) rows
      → tally (counts g) (put_member now h x role by o rows)
        ≤ tally (counts g) rows + one (h == g && is_active_role role)
  unfolding put_member tally
  put_member-tally now h x role by none rows e d = omega arith
  put_member-tally now h x role by (some m) rows e d =
      let key : pair m.group_id m.user_id ≡ pair h x = get-key (pair h x) rows m e in
      omega (
        arith,
        tally-modify (counts g) (pair h x) (with_role role) m rows d e,
        with_role-counts h role m (ap (λ p. p.0) key),
      )

  module _ (t : GroupTables) where
    pub active-upsert :
        (now : ℤ) (h x role : ℕ) (by : Option ℕ)
        → Tidy t
        → active g (upsert_group_member now h x role by t)
          ≤ active g t + one (h == g && is_active_role role)
    unfolding upsert_group_member
    active-upsert now h x role by d =
        rw
          (
            count-tally (put_member now h x role by (get (pair h x) t.members) t.members),
            count-tally t.members,
          )
          (put_member-tally now h x role by (get (pair h x) t.members) t.members refl d.members)

    pub active-delete : (h x : ℕ) → active g (delete_group_member h x t) ≤ active g t
    unfolding delete_group_member remove
    active-delete h x =
        rw
          (
            count-tally (select (λ m. not (same_pair (m.group_id, m.user_id) (h, x))) t.members),
            count-tally t.members,
          )
          (tally-select (counts g) _ t.members)

    pub active-drop : (h : ℕ) → active g (drop_group h t) ≤ active g t
    unfolding drop_group
    active-drop h =
        rw (count-tally (select (λ m. not (m.group_id == h)) t.members), count-tally t.members)
          (tally-select (counts g) _ t.members)

    pub active-forget : (u : ℕ) → active g (delete_group_memberships_for_user u t) ≤ active g t
    unfolding delete_group_memberships_for_user
    active-forget u =
        rw (count-tally (select (λ m. not (m.user_id == u)) t.members), count-tally t.members)
          (tally-select (counts g) _ t.members)

    pub active-clear : (u : ℕ) → active g (clear_group_invite_attribution_for_user u t) ≡ active g t
    unfolding clear_group_invite_attribution_for_user
    active-clear u =
        count-tally (map (clear_invite u) t.members)
        ∙ tally-map (counts g) (clear_invite u) t.members (clear_invite-counts u)
        ∙ sym (count-tally t.members)

    pub active-notify :
        (h x : ℕ) (on : Bool) → active g (set_group_member_notify h x on t).1 ≡ active g t
    unfolding set_group_member_notify
    active-notify h x on =
        count-tally (modify (pair h x) (with_notify on) t.members)
        ∙ tally-modify-same (counts g) (pair h x) (with_notify on) t.members (with_notify-counts on)
        ∙ sym (count-tally t.members)

    pub active-promote :
        (h v : ℕ)
        → Tidy t
        → role_of h v t ≡ some 1
        → active g (promote_group_member_to_owner h v t) ≤ active g t
    unfolding promote_group_member_to_owner role_of
    active-promote h v d role =
        rw
          (
            count-tally (modify (pair h v) (λ m. record m { role = 2 }) t.members),
            count-tally t.members,
          )
          (promote-tally h v (get (pair h v) t.members) t.members refl role d.members)
