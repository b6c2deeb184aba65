-- ===== src/Social/Moves/Erases.antt =====
-- An erasure is a sequence of its steps.
use podcast_backend.Prelude.{
  ℕ, ℤ, Bool, ◌&&◌, ◌==◌, ==_iff, Option, none, some, List, [], ◌∷◌, map, ◌≡◌, ◌≢◌, refl, sym, ap,
  subst, ◌∙◌, inl, inr, arith, In, select, select-In, In-select, In-map, map-In, some-inj,
  Bool-cases,
}
use podcast_backend.Db.Keys.{get}
use podcast_backend.Db.Keys.Laws.{get-key}
use podcast_backend.Db.Keys.Unique.{Unique, get-In, In-get, In-get-some}
use podcast_backend.Social.Rows.{SocialGroup, group_key}
use podcast_backend.Social.Handler.{GroupTables}
use podcast_backend.Social.GroupQueries.{drop_group}
use podcast_backend.Social.Erase.{
  for_each, pass_on, find_group_successor, transfer_group_owner, promote_group_member_to_owner,
  get_owned_public_group_ids, delete_owned_private_groups, delete_group_memberships_for_user,
  erase_groups,
}
use podcast_backend.Social.Roles.{
  role_of, owner_of, visibility_of, owner_in, visibility_in, each_role, owner_of-drop,
  visibility_of-drop,
}
use podcast_backend.Social.Roles.Erased.{
  owner_of-transfer, visibility_of-transfer, owner_of-promote, visibility_of-promote,
  owner_of-forget, owner_of-clear, role_of-forget, role_of-clear,
}
use podcast_backend.Social.Moves.Erasing.{Erasing, Erasure, append, Erasure-ind}
use podcast_backend.Social.Moves.Tidy.{Tidy, Erasing-Tidy}
use podcast_backend.Social.Moves.Successor.{successor-some, successor-none}
use podcast_backend.Social.Moves.Loop.{Body, Todo, Left, Distinct, loop}

abbrev mine : ℕ → ℕ → SocialGroup → Bool
mine u v g = g.owner_user_id == u && g.visibility == v

abbrev ids : ℕ → ℕ → List SocialGroup → List ℕ
ids u v rows = map (λ g. g.id) (select (mine u v) rows)

module _ (u v : ℕ) where
  ids-Distinct : (rows : List SocialGroup) → Unique ℕ rows → Distinct (ids u v rows)
  unfolding select
  ids-Distinct [] d = tt
  ids-Distinct (x ∷ xs) (new, d) = elim (Bool-cases (mine u v x)) [
    | inl y ↦ rw y (once, ids-Distinct xs d)
    | inr n ↦ rw n (ids-Distinct xs d)
  ]
    where
      once : In x.id (map (λ g. g.id) (select (mine u v) xs)) → ⊥
      once i =
          let (r, j, same) = In-map (λ g. g.id) x.id (select (mine u v) xs) i in
          In-get-some ℕ r xs (In-select (mine u v) r xs j).0 (subst (λ k. get k xs ≡ none) same new)

  ids-Todo : (t : GroupTables) → Tidy t → Todo u v (ids u v t.groups) t
  unfolding owner_of visibility_of
  ids-Todo t d = record { mine = found; all = listed }
    where
      found :
          (id : ℕ)
          → In id (ids u v t.groups)
          → (owner_in (get id t.groups) ≡ some u) × (visibility_in (get id t.groups) ≡ some v)
      found id i =
          let (r, j, same) = In-map (λ g. g.id) id (select (mine u v) t.groups) i in
          let (k, test) = In-select (mine u v) r t.groups j in
          let at : get id t.groups ≡ some r =
            ap (λ x. get x t.groups) same ∙ In-get ℕ r t.groups d.groups k in
          (ap owner_in at ∙ ap some (ground arith), ap visibility_in at ∙ ap some (ground arith))

      listed :
          (id : ℕ)
          → owner_in (get id t.groups) ≡ some u
          → visibility_in (get id t.groups) ≡ some v
          → In id (ids u v t.groups)
      listed id e w = at (get id t.groups) refl e w
        where
          at :
              (o : Option SocialGroup)
              → get id t.groups ≡ o
              → owner_in o ≡ some u
              → visibility_in o ≡ some v
              → In id (ids u v t.groups)
          at none q e' w' = absurd (cc)
          at (some x) q e' w' =
              let owner = some-inj e' in
              let seen = some-inj w' in
              subst (λ k. In k (ids u v t.groups)) (get-key id t.groups x q)
                (map-In (λ g. g.id) x (select (mine u v) t.groups)
                  (select-In (mine u v) x t.groups (get-In ℕ id t.groups x q) (ground arith)))

each_role-const : {s u : ℕ} (o : Option ℕ) → each_role (λ r. s) o ≡ some u → s ≡ u
each_role-const none e = absurd (cc)
each_role-const (some r) e = some-inj e

-- A group has both an owner and a visibility.
pub owned-seen :
    (g u : ℕ) (t : GroupTables) → owner_of g t ≡ some u → (v : ℕ) × (visibility_of g t ≡ some v)
unfolding owner_of visibility_of
owned-seen g u t e = at (get g t.groups) e
  where
    at : (o : Option SocialGroup) → owner_in o ≡ some u → (v : ℕ) × (visibility_in o ≡ some v)
    at none e' = absurd (cc)
    at (some x) e' = (x.visibility, refl)

pub seen-group : (g v : ℕ) (t : GroupTables) → visibility_of g t ≡ some v → owner_of g t ≢ none
unfolding owner_of visibility_of
seen-group g v t e n = at (get g t.groups) e n
  where
    at : (o : Option SocialGroup) → visibility_in o ≡ some v → owner_in o ≡ none → ⊥
    at none e' n' = cc
    at (some x) e' n' = cc

module _ (now : ℤ) (u : ℕ) where
  pass_on-cases :
      (P : GroupTables → Type 0) (id : ℕ) (t : GroupTables)
      → (find_group_successor id u t.members ≡ none → P (drop_group id t))
      → ((s : ℕ)
          → find_group_successor id u t.members ≡ some s
          → P (promote_group_member_to_owner id s (transfer_group_owner now id s t)))
      → P (pass_on now u id t)
  unfolding pass_on
  pass_on-cases P id t f g = at (find_group_successor id u t.members) refl
    where
      at :
          (o : Option ℕ)
          → find_group_successor id u t.members ≡ o
          → P (elim o [
            | none ↦ drop_group id t
            | some s ↦ promote_group_member_to_owner id s (transfer_group_owner now id s t)
          ])
      at none e = f e
      at (some s) e = g s e

  pass_on-Body : Body u 2 (pass_on now u)
  unfolding role_of
  pass_on-Body = record {
    steps = λ id t d own seen.
        pass_on-cases (Erasure u t) id t
          (λ e.
            Erasure.step t _ Erasure.done
              (Erasing.drop id own (λ _ v other. successor-none id u v t.members e other)))
          (λ s e.
            let (role, other) = successor-some id u s t.members d.members e in
            Erasure.step t _ Erasure.done (Erasing.pass now id s own seen role other));
    owner_else = λ id h t out.
        pass_on-cases (λ t'. owner_of h t' ≡ owner_of h t) id t
          (λ e. ground (arith, owner_of-drop id h t))
          (λ s e. owner_of-promote h id s _ ∙ ground (arith, owner_of-transfer h t now id s));
    visibility_else = λ id h t out.
        pass_on-cases (λ t'. visibility_of h t' ≡ visibility_of h t) id t
          (λ e. ground (arith, visibility_of-drop id h t))
          (λ s e. visibility_of-promote h id s _ ∙ visibility_of-transfer h t now id s);
    gone = λ id t d.
        pass_on-cases (λ t'. owner_of id t' ≢ some u) id t
          (λ e q. ground (arith, owner_of-drop id id t))
          (λ s e q.
            let (role, other) = successor-some id u s t.members d.members e in
            other (
              each_role-const (owner_of id t) (
                rw ((==_iff id id).1 refl) at
                  (sym (owner_of-transfer id t now id s) ∙ sym (owner_of-promote id id s _) ∙ q))));
  }

  drop-Body : Body u 1 drop_group
  drop-Body = record {
    steps = λ id t d own seen.
        Erasure.step t _ Erasure.done (Erasing.drop id own (λ seen' v other r. ground arith));
    owner_else = λ id h t out. ground (arith, owner_of-drop id h t);
    visibility_else = λ id h t out. ground (arith, visibility_of-drop id h t);
    gone = λ id t d e. ground (arith, owner_of-drop id id t);
  }

  owns_nothing :
      (t t1 t2 : GroupTables)
      → Left u 2 t t1
      → Left u 1 t1 t2
      → Tidy t2
      → (g : ℕ) → owner_of g t2 ≢ some u
  owns_nothing t t1 t2 p q d g e =
      let (v, seen) = owned-seen g u t2 e in
      elim (d.visible g v seen) [
        | inl one ↦ q.other g e (seen ∙ ap some one)
        | inr two ↦ p.other g (q.owned g e) (sym (q.visibility g e) ∙ seen ∙ ap some two)
      ]

  -- The tables before the user's memberships are deleted.
  abbrev handed_over : GroupTables → GroupTables
  handed_over t =
      delete_owned_private_groups u
        (for_each (pass_on now u) (get_owned_public_group_ids u t.groups) t)

  handed_over-free :
      (t : GroupTables)
      → Tidy t
      → Erasure u t (handed_over t) × ((g : ℕ) → owner_of g (handed_over t) ≢ some u)
  unfolding get_owned_public_group_ids delete_owned_private_groups
  handed_over-free t d =
      let p =
        loop u 2 (pass_on now u) pass_on-Body (ids u 2 t.groups) t d
          (ids-Distinct u 2 t.groups d.groups) (ids-Todo u 2 t d) in
      let t1 = for_each (pass_on now u) (ids u 2 t.groups) t in
      let d1 : Tidy t1 = Erasure-ind Tidy Erasing-Tidy p.steps d in
      let q =
        loop u 1 drop_group drop-Body (ids u 1 t1.groups) t1 d1
          (ids-Distinct u 1 t1.groups d1.groups) (ids-Todo u 1 t1 d1) in
      let t2 = for_each drop_group (ids u 1 t1.groups) t1 in
      (append p.steps q.steps, owns_nothing t t1 t2 p q (Erasure-ind Tidy Erasing-Tidy q.steps d1))

  -- In tables that keep their constraints, the group statements of an erasure amount to a sequence
  -- of these steps: a public group of the user goes to another member, who becomes the owner; a
  -- group of the user is dropped with its members, a public one only if it has no other member; the
  -- user's memberships are deleted, once the user owns no group; and the user's name is taken off
  -- the invitations.
  pub erase_groups-Erasure : (t : GroupTables) → Tidy t → Erasure u t (erase_groups now u t)
  unfolding erase_groups
  erase_groups-Erasure t d =
      let (steps, free) = handed_over-free t d in
      Erasure.step _ _ (Erasure.step (handed_over t) _ steps (Erasing.forget free)) Erasing.clear

  pub erase_groups-owns_none :
      (t : GroupTables) → Tidy t → (g : ℕ) → owner_of g (erase_groups now u t) ≢ some u
  unfolding erase_groups
  erase_groups-owns_none t d g e =
      let forgotten = delete_group_memberships_for_user u (handed_over t) in
      (handed_over-free t d).1 g
        (sym (owner_of-forget g u (handed_over t)) ∙ sym (owner_of-clear g u forgotten) ∙ e)

  pub erase_groups-no_seat : (t : GroupTables) (g : ℕ) → role_of g u (erase_groups now u t) ≡ none
  unfolding erase_groups
  erase_groups-no_seat t g =
      let forgotten = delete_group_memberships_for_user u (handed_over t) in
      role_of-clear g u forgotten u
      ∙ role_of-forget g u (handed_over t) u
      ∙ rw ((==_iff u u).1 refl) refl
