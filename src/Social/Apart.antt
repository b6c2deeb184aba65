-- ===== src/Social/Apart.antt =====
-- Blocks and the follow graph: nobody follows someone where either blocks the other.
use podcast_backend.Prelude.{
  ℕ, ℤ, false, ◌||◌, not, Option, none, some, List, [], ◌∷◌, ◌==◌, ◌≡◌, ◌≢◌, ◌⊎◌, refl, sym, ap,
  subst, ◌∙◌, arith, inl, inr, Bool-cases, Option-cases,
}
use podcast_backend.Db.Keys.{get}
use podcast_backend.Db.Keys.There.{There, select-There, remove-There, modify-There, cons-There}
use podcast_backend.Social.Rows.{
  SocialFollow, SocialRelationship, follow_key, relationship_key, pair, triple,
}
use podcast_backend.Social.Handler.{Store}
use podcast_backend.Social.Guards.{Context}
use podcast_backend.Social.Queries.{
  has_social_relationship, some?, is_blocked_either, upsert_follow, delete_follow, approve_follow,
  approved, upsert_social_relationship, delete_social_relationship,
}
use podcast_backend.Social.Graph.{status_for}
use podcast_backend.Social.Links.{Link}
use podcast_backend.Social.Served.{Request, serve, serve_all}
use podcast_backend.Social.Moves.Refines.{serve-Links}

-- x follows y, or has asked to.
abbrev pub Follows : ℕ → ℕ → List SocialFollow → Type 0
Follows x y f = There (pair x y) f

abbrev pub Blocks : ℕ → ℕ → List SocialRelationship → Type 0
Blocks x y r = There (triple x y 0) r

-- No follow, and no request to follow, of oneself or across a block in either direction.
pub record Apart (f : List SocialFollow) (r : List SocialRelationship) : Type 0 where
  pub others : (x y : ℕ) → Follows x y f → x ≢ y
  pub unblocked : (x y : ℕ) → Follows x y f → Blocks x y r → ⊥
  pub unblocking : (x y : ℕ) → Follows x y f → Blocks y x r → ⊥

approved-key :
    (now : ℤ) (m : SocialFollow)
    → pair (approved now m).follower_user_id (approved now m).followee_user_id
      ≡ pair m.follower_user_id m.followee_user_id
unfolding approved
approved-key now m = ground arith

-- The rows of the two tables, after their statements.
module _ (x y : ℕ) (f : List SocialFollow) where
  delete-Follows :
      (v w : ℕ) → Follows x y (delete_follow v w f) → (pair x y ≢ pair v w) × Follows x y f
  unfolding delete_follow
  delete-Follows v w e = remove-There (pair x y) (pair v w) f e

  approve-Follows : (now : ℤ) (v w : ℕ) → Follows x y (approve_follow now v w f).1 → Follows x y f
  unfolding approve_follow
  approve-Follows now v w e =
      modify-There (pair x y) (pair v w) (approved now) f (approved-key now) e

  upsert-Follows :
      (now : ℤ) (v w status : ℕ)
      → Follows x y (upsert_follow now v w status f).1
      → (pair v w ≡ pair x y) ⊎ Follows x y f
  unfolding upsert_follow
  upsert-Follows now v w status e = elim (Option-cases (get (pair v w) f)) [
    | inl gone ↦ cons-There (pair x y) _ f (rw (upsert_follow, gone) at e)
    | inr (r, there) ↦ inr (rw (upsert_follow, there) at e)
  ]

module _ (x y : ℕ) (r : List SocialRelationship) where
  upsert-Blocks :
      (v w kind : ℕ)
      → Blocks x y (upsert_social_relationship v w kind r)
      → (triple v w kind ≡ triple x y 0) ⊎ Blocks x y r
  unfolding upsert_social_relationship
  upsert-Blocks v w kind e = elim (Bool-cases (has_social_relationship v w kind r)) [
    | inl t ↦ inr (rw t at e)
    | inr n ↦ cons-There (triple x y 0) _ r (rw n at e)
  ]

  delete-Blocks : (v w kind : ℕ) → Blocks x y (delete_social_relationship v w kind r) → Blocks x y r
  unfolding delete_social_relationship
  delete-Blocks v w kind e = (remove-There (triple x y 0) (triple v w kind) r e).1

  not-blocked : is_blocked_either x y r ≡ false → (Blocks x y r → ⊥) × (Blocks y x r → ⊥)
  unfolding is_blocked_either has_social_relationship
  not-blocked = at (get (triple x y 0) r) (get (triple y x 0) r)
    where
      at :
          (o p : Option SocialRelationship)
          → (some? o || some? p) ≡ false
          → (o ≢ none → ⊥) × (p ≢ none → ⊥)
      at none none e = (λ n. n refl, λ n. n refl)
      at none (some b) e = absurd (cc)
      at (some a) p e = absurd (cc)

-- With fewer follows, or fewer blocks.
fewer :
    {f f' : List SocialFollow} {r : List SocialRelationship}
    → Apart f r
    → ((x y : ℕ) → Follows x y f' → Follows x y f)
    → Apart f' r
fewer a old = record {
  others = λ x y e. a.others x y (old x y e);
  unblocked = λ x y e. a.unblocked x y (old x y e);
  unblocking = λ x y e. a.unblocking x y (old x y e);
}

weaker :
    {f : List SocialFollow} {r r' : List SocialRelationship}
    → Apart f r
    → ((x y : ℕ) → Blocks x y r' → Blocks x y r)
    → Apart f r'
weaker a old = record {
  others = a.others;
  unblocked = λ x y e b. a.unblocked x y e (old x y b);
  unblocking = λ x y e b. a.unblocking x y e (old y x b);
}

-- The keys of a mute and a block differ.
kinds : {u w x y : ℕ} → triple u w 1 ≡ triple x y 0 → ⊥
kinds e = absurd (ground (arith, ap (λ k. k.2) e))

Link-Apart :
    (now : ℤ) (u : ℕ) (s : Store) (f : List SocialFollow) (r : List SocialRelationship)
    → Link now u s f r
    → Apart s.follows s.relationships
    → Apart f r
Link-Apart now u s _ _ (Link.follow handle t known other free) a = record {
  others = λ x y e. elim (upsert-Follows x y s.follows now u t.user_id (status_for t) e) [
    | inl same ↦ λ q. other (ap (λ k. k.1) same ∙ sym q ∙ sym (ap (λ k. k.0) same))
    | inr old ↦ a.others x y old
  ];
  unblocked = λ x y e b. elim (upsert-Follows x y s.follows now u t.user_id (status_for t) e) [
    | inl same ↦
        (not-blocked u t.user_id s.relationships free).0
          (subst (λ k. Blocks k.0 k.1 s.relationships) (sym same) b)
    | inr old ↦ a.unblocked x y old b
  ];
  unblocking = λ x y e b. elim (upsert-Follows x y s.follows now u t.user_id (status_for t) e) [
    | inl same ↦
        (not-blocked u t.user_id s.relationships free).1
          (subst (λ k. Blocks k.1 k.0 s.relationships) (sym same) b)
    | inr old ↦ a.unblocking x y old b
  ];
}
Link-Apart now u s _ _ (Link.unfollow w) a =
    fewer a (λ x y e. (delete-Follows x y s.follows u w e).1)
Link-Apart now u s _ _ (Link.approve w) a =
    fewer a (λ x y e. approve-Follows x y s.follows now w u e)
Link-Apart now u s _ _ (Link.decline w) a =
    fewer a (λ x y e. (delete-Follows x y s.follows w u e).1)
Link-Apart now u s _ _ (Link.block w other) a = record {
  others = λ x y e. a.others x y (severed w x y s e).2;
  unblocked = λ x y e b.
      let (out, back, old) = severed w x y s e in
      elim (upsert-Blocks x y s.relationships u w 0 b) [
        | inl same ↦ out (sym (ap (λ k. pair k.0 k.1) same))
        | inr before ↦ a.unblocked x y old before
      ];
  unblocking = λ x y e b.
      let (out, back, old) = severed w x y s e in
      elim (upsert-Blocks y x s.relationships u w 0 b) [
        | inl same ↦ back (sym (ap (λ k. pair k.1 k.0) same))
        | inr before ↦ a.unblocking x y old before
      ];
}
  where
    severed :
        (w' x y : ℕ) (s' : Store)
        → Follows x y (delete_follow w' u (delete_follow u w' s'.follows))
        → (pair x y ≢ pair u w') × (pair x y ≢ pair w' u) × Follows x y s'.follows
    severed w' x y s' e =
        let (back, once) = delete-Follows x y (delete_follow u w' s'.follows) w' u e in
        let (out, old) = delete-Follows x y s'.follows u w' once in (out, back, old)
Link-Apart now u s _ _ (Link.mute w other) a = weaker a (λ x y e.
    elim (upsert-Blocks x y s.relationships u w 1 e) [
      | inl same ↦ absurd (kinds same)
      | inr old ↦ old
    ])
Link-Apart now u s _ _ (Link.unrelate w kind) a =
    weaker a (λ x y e. delete-Blocks x y s.relationships u w kind e)
Link-Apart now u s _ _ Link.erase a =
    weaker
      (fewer a (λ x y e. (select-There (pair x y) (λ k. not (k.0 == u || k.1 == u)) s.follows e).1))
      (λ x y e. (select-There (triple x y 0) (λ k. not (k.0 == u || k.1 == u)) s.relationships e).1)

serve-Apart :
    (c : Context) (r : Request) (s : Store)
    → Apart s.follows s.relationships
    → Apart (serve (c, r) s).follows (serve (c, r) s).relationships
serve-Apart c r s a = elim (serve-Links c r s) [
  | inl (f, b) ↦
      subst (λ x. Apart x (serve (c, r) s).relationships) (sym f)
        (subst (Apart s.follows) (sym b) a)
  | inr (u, who, l) ↦ Link-Apart c.now u.id s _ _ l a
]

-- After any requests, in tables that started so: nobody follows or asks to follow themself, nor a
-- user whom they block or who blocks them.
pub serve_all-Apart :
    (qs : List (Context × Request)) (s : Store)
    → Apart s.follows s.relationships
    → Apart (serve_all qs s).follows (serve_all qs s).relationships
unfolding serve_all
serve_all-Apart [] s a = a
serve_all-Apart ((c, r) ∷ qs) s a = serve_all-Apart qs (serve (c, r) s) (serve-Apart c r s a)
