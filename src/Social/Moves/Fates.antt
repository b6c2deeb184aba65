-- ===== src/Social/Moves/Fates.antt =====
-- What an erasure makes of each group.
use podcast_backend.Prelude.{
  ℕ, ℤ, true, none, some, ◌==◌, ==_iff, ◌≡◌, ◌≢◌, refl, sym, ap, ◌∙◌, inl, inr, arith, In, In-map,
  Bool-cases, Option-cases,
}
use podcast_backend.Social.Rows.{SocialGroupMember, pair, same_pair, same_pair_iff}
use podcast_backend.Social.Handler.{GroupTables}
use podcast_backend.Social.GroupQueries.{drop_group}
use podcast_backend.Social.Erase.{
  erase_groups, clear_invite, promote_group_member_to_owner, transfer_group_owner,
  delete_group_memberships_for_user, clear_group_invite_attribution_for_user,
}
use podcast_backend.Social.Roles.{
  role_of, owner_of, visibility_of, each_role, role_of-drop, owner_of-drop, visibility_of-drop,
}
use podcast_backend.Social.Roles.Erased.{
  role_of-promote, role_of-transfer, role_of-forget, role_of-clear, owner_of-transfer,
  visibility_of-transfer, owner_of-promote, visibility_of-promote, owner_of-forget,
  visibility_of-forget, owner_of-clear, visibility_of-clear,
}
use podcast_backend.Social.Moves.Erasing.{Erasing, Erasure-ind}
use podcast_backend.Social.Moves.Tidy.{Tidy}
use podcast_backend.Social.Moves.Erases.{
  erase_groups-Erasure, erase_groups-owns_none, erase_groups-no_seat,
}

-- The group g in the tables t and after an erasure of u, in t'.
pub data Fate (u g : ℕ) (t t' : GroupTables) : Type 0 where
  kept :
      owner_of g t' ≡ owner_of g t
      → visibility_of g t' ≡ visibility_of g t
      → ((w : ℕ) → w ≢ u → role_of g w t' ≡ role_of g w t)
      → Fate u g t t'
  passed :
      (v : ℕ)
      → owner_of g t ≡ some u
      → visibility_of g t ≡ some 2
      → v ≢ u
      → role_of g v t ≡ some 1
      → owner_of g t' ≡ some v
      → visibility_of g t' ≡ some 2
      → role_of g v t' ≡ some 2
      → Fate u g t t'
  gone :
      owner_of g t ≡ some u
      → (visibility_of g t ≡ some 2 → (w : ℕ) → w ≢ u → role_of g w t ≢ some 1)
      → owner_of g t' ≡ none
      → Fate u g t t'

module _ (u g : ℕ) (t : GroupTables) where
  -- A statement that leaves the group alone, but for u's row.
  frame :
      (a b : GroupTables)
      → owner_of g b ≡ owner_of g a
      → visibility_of g b ≡ visibility_of g a
      → ((w : ℕ) → w ≢ u → role_of g w b ≡ role_of g w a)
      → Fate u g t a
      → Fate u g t b
  frame a b o v r (Fate.kept eo ev er) = Fate.kept (o ∙ eo) (v ∙ ev) (λ w out. r w out ∙ er w out)
  frame a b o v r (Fate.passed w p1 p2 out p3 p4 p5 p6) =
      Fate.passed w p1 p2 out p3 (o ∙ p4) (v ∙ p5) (r w out ∙ p6)
  frame a b o v r (Fate.gone own alone e) = Fate.gone own alone (o ∙ e)

  -- A group that u still owns is as it was.
  still_kept :
      (a : GroupTables)
      → owner_of g a ≡ some u
      → Fate u g t a
      → (owner_of g t ≡ some u)
        × (visibility_of g a ≡ visibility_of g t)
        × ((w : ℕ) → w ≢ u → role_of g w a ≡ role_of g w t)
  still_kept a own (Fate.kept eo ev er) = (sym eo ∙ own, ev, er)
  still_kept a own (Fate.passed w p1 p2 out p3 p4 p5 p6) = absurd (out (cc))
  still_kept a own (Fate.gone p alone e) = absurd (cc)

  pass-Fate :
      (now : ℤ) (h v : ℕ) (a : GroupTables)
      → owner_of h a ≡ some u
      → visibility_of h a ≡ some 2
      → role_of h v a ≡ some 1
      → v ≢ u
      → Fate u g t a
      → Fate u g t (promote_group_member_to_owner h v (transfer_group_owner now h v a))
  pass-Fate now h v a own public role other f =
      let m = transfer_group_owner now h v a in
      elim (Bool-cases (g == h)) [
        | inr away ↦
            frame a (promote_group_member_to_owner h v m)
              (owner_of-promote g h v m ∙ ground (arith, owner_of-transfer g a now h v))
              (visibility_of-promote g h v m ∙ visibility_of-transfer g a now h v)
              (λ w out. ground (arith, role_of-promote g w m h v, role_of-transfer g w a now h v)) f
        | inl here ↦
            let same : g ≡ h = (==_iff g h).0 here in
            let own' : owner_of g a ≡ some u = ap (λ k. owner_of k a) same ∙ own in
            let role' : role_of g v a ≡ some 1 = ap (λ k. role_of k v a) same ∙ role in
            let seen : visibility_of g a ≡ some 2 = ap (λ k. visibility_of k a) same ∙ public in
            let at : same_pair (g, v) (h, v) ≡ true =
              (same_pair_iff (pair g v) (pair h v)).1 (ap (λ k. pair k v) same) in
            let (first, ev, er) = still_kept a own' f in
            Fate.passed v first (sym ev ∙ seen) other (sym (er v other) ∙ role')
              (owner_of-promote g h v m ∙ owner_of-transfer g a now h v ∙ rw (here, own') refl)
              (visibility_of-promote g h v m ∙ visibility_of-transfer g a now h v ∙ seen)
              (role_of-promote g v m h v
                ∙ rw at (ap (each_role (λ r. 2)) (role_of-transfer g v a now h v ∙ role')))
      ]

  drop-Fate :
      (h : ℕ) (a : GroupTables)
      → owner_of h a ≡ some u
      → (visibility_of h a ≡ some 2 → (w : ℕ) → w ≢ u → role_of h w a ≢ some 1)
      → Fate u g t a
      → Fate u g t (drop_group h a)
  drop-Fate h a own alone f = elim (Bool-cases (g == h)) [
    | inr away ↦
        frame a (drop_group h a) (owner_of-drop h g a ∙ rw away refl)
          (visibility_of-drop h g a ∙ rw away refl) (λ w out. role_of-drop h u g w a ∙ rw away refl)
          f
    | inl here ↦
        let same : g ≡ h = (==_iff g h).0 here in
        let own' : owner_of g a ≡ some u = ap (λ k. owner_of k a) same ∙ own in
        let (first, ev, er) = still_kept a own' f in
        Fate.gone first
          (λ two w out one.
            alone (ap (λ k. visibility_of k a) (sym same) ∙ ev ∙ two) w out
              (ap (λ k. role_of k w a) (sym same) ∙ er w out ∙ one))
          (owner_of-drop h g a ∙ rw here refl)
  ]

  Erasing-Fate : (a b : GroupTables) → Erasing u a b → Fate u g t a → Fate u g t b
  Erasing-Fate a _ (Erasing.pass now h v own public role other) f =
      pass-Fate now h v a own public role other f
  Erasing-Fate a _ (Erasing.drop h own alone) f = drop-Fate h a own alone f
  Erasing-Fate a _ (Erasing.forget free) f =
      frame a (delete_group_memberships_for_user u a) (owner_of-forget g u a)
        (visibility_of-forget g u a) (λ w out. ground (arith, role_of-forget g w a u)) f
  Erasing-Fate a _ Erasing.clear f =
      frame a (clear_group_invite_attribution_for_user u a) (owner_of-clear g u a)
        (visibility_of-clear g u a) (λ w out. role_of-clear g w a u) f

clear_invite-other : (u : ℕ) (m : SocialGroupMember) → (clear_invite u m).invited_by ≢ some u
unfolding clear_invite
clear_invite-other u m e = elim (Option-cases m.invited_by) [
  | inl absent ↦ ground arith
  | inr (v, there) ↦ ground arith
]

pub record Erased (u : ℕ) (t t' : GroupTables) : Type 0 where
  pub fates : (g : ℕ) → Fate u g t t'
  pub owns_none : (g : ℕ) → owner_of g t' ≢ some u
  pub no_seat : (g : ℕ) → role_of g u t' ≡ none
  pub invited_none : (m : SocialGroupMember) → In m t'.members → m.invited_by ≢ some u

module _ (now : ℤ) (u : ℕ) where
  invited_none :
      (t : GroupTables) (m : SocialGroupMember)
      → In m (erase_groups now u t).members
      → m.invited_by ≢ some u
  unfolding erase_groups clear_group_invite_attribution_for_user
  invited_none t m i e =
      let (r, j, same) = In-map (clear_invite u) m _ i in
      clear_invite-other u r (ap (λ x. x.invited_by) (sym same) ∙ e)

  -- After an erasure, in tables that keep their constraints, the user owns no group, is in none, and
  -- is named in no invitation. Each group is as it was, but for the user's row; or it was a public one
  -- of the user, and is owned by one who was a member of it, now in the owner's role; or it was the
  -- user's and is gone, a public one only if it had no other member.
  pub erase_groups-Erased : (t : GroupTables) → Tidy t → Erased u t (erase_groups now u t)
  erase_groups-Erased t d = record {
    fates = λ g.
        Erasure-ind (Fate u g t) (Erasing-Fate u g t) (erase_groups-Erasure now u t d)
          (Fate.kept refl refl (λ w out. refl));
    owns_none = erase_groups-owns_none now u t d;
    no_seat = erase_groups-no_seat now u t;
    invited_none = invited_none t;
  }
