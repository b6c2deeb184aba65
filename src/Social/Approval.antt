-- ===== src/Social/Approval.antt =====
-- Who makes a follow active.
use podcast_backend.Prelude.{
  ℕ, ℤ, Bool, true, false, ◌||◌, not, Option, none, some, List, ◌∷◌, String, ◌==◌, ◌≡◌, ◌⊎◌, refl,
  sym, ap, subst, ◌∙◌, arith, inl, inr, some-inj, if◌then◌else◌, Bool-cases, Option-cases,
}
use podcast_backend.Db.Keys.{get, remove, modify}
use podcast_backend.Db.Keys.Laws.{get-select, get-modify, get-remove}
use podcast_backend.Social.Rows.{
  Account, SocialProfile, SocialFollow, SocialRelationship, follow_key, pair, same_pair,
  same_pair_iff,
}
use podcast_backend.Social.Handler.{Store}
use podcast_backend.Social.Guards.{Context, caller}
use podcast_backend.Social.Graph.{status_for}
use podcast_backend.Social.Queries.{
  profile_by_handle, upsert_follow, delete_follow, approve_follow, approved, get_follow_state,
}
use podcast_backend.Social.Links.{Link}
use podcast_backend.Social.Served.{Request, serve}
use podcast_backend.Social.Moves.Refines.{serve-Links}

-- A user u makes the follow of y by x active: as y, who approves a pending one; or as x, where there
-- was none and the profile of y asks for no approval.
abbrev pub Activates : ℕ → ℕ → ℕ → Store → Type 0
Activates u x y s =
    ((u ≡ y) × (get_follow_state x y s.follows ≡ some 0))
    ⊎ ((u ≡ x)
        × (get_follow_state x y s.follows ≡ none)
        × ((handle : String) × (p : SocialProfile) × (profile_by_handle handle s.profiles ≡ some p)
            × (p.user_id ≡ y)
            × (p.require_follow_approval ≡ false)))

abbrev state_in : Option SocialFollow → Option ℕ
state_in none = none
state_in (some f) = some f.status

approved-key :
    (now : ℤ) (m : SocialFollow)
    → pair (approved now m).follower_user_id (approved now m).followee_user_id
      ≡ pair m.follower_user_id m.followee_user_id
unfolding approved
approved-key now m = ground arith

-- What an approved row was.
was :
    (now : ℤ) (o : Option SocialFollow)
    → state_in (elim o [ none ↦ none | some r ↦ some (approved now r) ]) ≡ some 1
    → (state_in o ≡ some 1) ⊎ (state_in o ≡ some 0)
unfolding approved
was now none e = absurd (cc)
was now (some r) e = elim (Bool-cases (r.status == 0)) [
  | inl pending ↦ inr (ap some (ground arith))
  | inr other ↦ inl (ap some (ground arith))
]

state-get : (x y : ℕ) (f : List SocialFollow) → get_follow_state x y f ≡ state_in (get (pair x y) f)
unfolding get_follow_state
state-get x y f = at (get (pair x y) f)
  where
    at : (o : Option SocialFollow) → elim o [ none ↦ none | some r ↦ some r.status ] ≡ state_in o
    at none = refl
    at (some r) = refl

module _ (x y : ℕ) (f : List SocialFollow) where
  state-delete :
      (v w : ℕ)
      → get_follow_state x y (delete_follow v w f) ≡ some 1
      → get_follow_state x y f ≡ some 1
  unfolding delete_follow
  state-delete v w e =
      state-get x y f
      ∙ kept (same_pair (x, y) (v, w)) (get (pair x y) f) (
          sym (ap state_in (get-remove (pair v w) (pair x y) f))
          ∙ sym (state-get x y (remove (pair v w) f))
          ∙ e)
    where
      kept :
          (b : Bool) (o : Option SocialFollow)
          → state_in (if b then none else o) ≡ some 1
          → state_in o ≡ some 1
      kept true o h = absurd (cc)
      kept false o h = h

  state-approve :
      (now : ℤ) (v w : ℕ)
      → get_follow_state x y (approve_follow now v w f).1 ≡ some 1
      → (get_follow_state x y f ≡ some 1) ⊎ ((w ≡ y) × (get_follow_state x y f ≡ some 0))
  unfolding approve_follow
  state-approve now v w e =
      let after =
        sym (ap state_in (get-modify (pair v w) (pair x y) (approved now) f (approved-key now)))
        ∙ sym (state-get x y (modify (pair v w) (approved now) f))
        ∙ e in
      elim (Bool-cases (same_pair (x, y) (v, w))) [
        | inl same ↦ elim (was now (get (pair x y) f) (rw same at after)) [
          | inl active ↦ inl (state-get x y f ∙ active)
          | inr pending ↦ inr (ground arith, state-get x y f ∙ pending)
        ]
        | inr other ↦ inl (state-get x y f ∙ rw other at after)
      ]

  state-upsert :
      (now : ℤ) (v w status : ℕ)
      → get_follow_state x y (upsert_follow now v w status f).1 ≡ some 1
      → (get_follow_state x y f ≡ some 1)
        ⊎ ((v ≡ x) × (w ≡ y) × (status ≡ 1) × (get_follow_state x y f ≡ none))
  unfolding upsert_follow get
  state-upsert now v w status e = elim (Option-cases (get (pair v w) f)) [
    | inl gone ↦ added gone (rw (upsert_follow, gone) at e)
    | inr (r, there) ↦ inl (rw (upsert_follow, there) at e)
  ]
    where
      added :
          get (pair v w) f ≡ none
          → get_follow_state x y (
              record {
                follower_user_id = v;
                followee_user_id = w;
                status = status;
                created_at = now;
                approved_at = if status == 1 then some now else none;
              }
              ∷ f)
            ≡ some 1
          → (get_follow_state x y f ≡ some 1)
            ⊎ ((v ≡ x) × (w ≡ y) × (status ≡ 1) × (get_follow_state x y f ≡ none))
      added gone h = elim (Bool-cases (same_pair (v, w) (x, y))) [
        | inl same ↦
            let group : v ≡ x = ground arith in
            let user : w ≡ y = ground arith in
            inr (
              group,
              user,
              some-inj (rw same at (sym (state-get x y _) ∙ h)),
              state-get x y f
                  ∙ ap state_in (
                      subst (λ (k : ℕ × ℕ). get k f ≡ none) ((same_pair_iff (v, w) (x, y)).0 same)
                        gone),
            )
        | inr other ↦ inl (state-get x y f ∙ rw other at (sym (state-get x y _) ∙ h))
      ]

open-profile : (t : SocialProfile) → status_for t ≡ 1 → t.require_follow_approval ≡ false
open-profile t e = ground arith

Link-Activates :
    (now : ℤ) (u x y : ℕ) (s : Store) (f : List SocialFollow) (r : List SocialRelationship)
    → Link now u s f r
    → get_follow_state x y f ≡ some 1
    → (get_follow_state x y s.follows ≡ some 1) ⊎ Activates u x y s
Link-Activates now u x y s _ _ (Link.follow handle t known other free) e =
    elim (state-upsert x y s.follows now u t.user_id (status_for t) e) [
      | inl before ↦ inl before
      | inr (own, target, status, absent) ↦
          inr (inr (own, absent, (handle, t, known, target, open-profile t status)))
    ]
Link-Activates now u x y s _ _ (Link.unfollow w) e = inl (state-delete x y s.follows u w e)
Link-Activates now u x y s _ _ (Link.approve w) e = elim (state-approve x y s.follows now w u e) [
  | inl before ↦ inl before
  | inr approves ↦ inr (inl approves)
]
Link-Activates now u x y s _ _ (Link.decline w) e = inl (state-delete x y s.follows w u e)
Link-Activates now u x y s _ _ (Link.block w other) e =
    inl (state-delete x y s.follows u w (state-delete x y (delete_follow u w s.follows) w u e))
Link-Activates now u x y s _ _ (Link.mute w other) e = inl e
Link-Activates now u x y s _ _ (Link.unrelate w kind) e = inl e
Link-Activates now u x y s _ _ Link.erase e = inl (
    state-get x y s.follows
    ∙ kept (not (x == u || y == u)) (get (pair x y) s.follows) (
        sym (
          ap state_in (get-select (λ (k : ℕ × ℕ). not (k.0 == u || k.1 == u)) (pair x y) s.follows))
        ∙ sym (state-get x y _)
        ∙ e))
  where
    kept :
        (b : Bool) (o : Option SocialFollow)
        → state_in (if b then o else none) ≡ some 1
        → state_in o ≡ some 1
    kept true o h = h
    kept false o h = absurd (cc)

-- A follow that a request makes active, the request is of the one who is followed, approving it, or
-- of the one who follows, where there was no follow and the profile asks for no approval.
pub serve-Activates :
    (c : Context) (r : Request) (s : Store) (x y : ℕ)
    → get_follow_state x y (serve (c, r) s).follows ≡ some 1
    → (get_follow_state x y s.follows ≡ some 1)
      ⊎ ((a : Account) × (caller c s ≡ some a) × Activates a.id x y s)
serve-Activates c r s x y active = elim (serve-Links c r s) [
  | inl (same, blocks) ↦ inl (subst (λ f. get_follow_state x y f ≡ some 1) same active)
  | inr (a, who, l) ↦ elim (Link-Activates c.now a.id x y s _ _ l active) [
    | inl before ↦ inl before
    | inr activates ↦ inr (a, who, activates)
  ]
]
