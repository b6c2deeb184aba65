-- ===== src/Social/Moves/Steps.antt =====
-- The checks of a handler, as rules for what holds in the end.
use podcast_backend.Prelude.{
  ℕ, String, false, some, List, ◌≡◌, ◌≢◌, ◌⊎◌, refl, inl, inr, sym, subst, arith,
}
use podcast_backend.Social.Rows.{Account, SocialProfile, SocialFollow, SocialRelationship}
use podcast_backend.Social.Handler.{Store, GroupTables, Handler, and_then}
use podcast_backend.Social.Handler.Ends.{or_answer-Ends, refuse_if-Ends, next-Ends, nested-Ends}
use podcast_backend.Social.Guards.{
  Context, caller, require_joined, resolve_follow_target, normalize_handle,
}
use podcast_backend.Social.Queries.{profile_by_handle, is_blocked_either}
use podcast_backend.Social.Groups.{check_texts}
use podcast_backend.Social.Moves.{Move, Moves}
use podcast_backend.Social.Links.{Link, Links}

module _ {B : Type 0} (P : Store → Type 0) (c : Context) where
  pub require_joined-Ends :
      (f : Account × SocialProfile → Handler B) (s : Store)
      → P s
      → ((a : Account) (p : SocialProfile) → caller c s ≡ some a → P (f (a, p) s).1)
      → P (and_then (require_joined c s) f).1
  unfolding require_joined
  require_joined-Ends f s p k = nested-Ends P _ _ f (
      or_answer-Ends P _ _ _ s p
        λ a e. nested-Ends P _ _ f (or_answer-Ends P _ _ _ s p λ q e'. next-Ends P _ _ _ (k a q e)))

module _ {B : Type 0} (P : Store → Type 0) (c : Context) where
  pub check_texts-Ends :
      (title description : String) (f : Unit → Handler B) (s : Store)
      → P s
      → P (f tt s).1
      → P (and_then (check_texts c title description s) f).1
  unfolding check_texts
  check_texts-Ends title description f s p k =
      nested-Ends P _ _ f (refuse_if-Ends P _ _ _ s p λ e. refuse_if-Ends P _ _ f s p λ e'. k)

  pub resolve_follow_target-Ends :
      (u : ℕ) (raw : String) (f : SocialProfile → Handler B) (s : Store)
      → P s
      → ((t : SocialProfile)
          → profile_by_handle (normalize_handle c.filter raw) s.profiles ≡ some t
          → t.user_id ≢ u
          → is_blocked_either u t.user_id s.relationships ≡ false
          → P (f t s).1)
      → P (and_then (resolve_follow_target c u raw s) f).1
  unfolding resolve_follow_target
  resolve_follow_target-Ends u raw f s p k = nested-Ends P _ _ f (
      or_answer-Ends P _ _ _ s p λ t e. nested-Ends P _ _ f (
        refuse_if-Ends P _ _ _ s p λ other. nested-Ends P _ _ f (
          next-Ends P _ _ _ (
            nested-Ends P _ _ f
              (refuse_if-Ends P _ _ _ s p λ free. next-Ends P _ _ _ (k t e (ground arith) free))))))

unfoldable pub Kept : Context → Store → Store → Type 0
Kept c s s' = Moves c s s'.tables × Links c s s'

module _ (c : Context) (s : Store) where
  pub stays : Kept c s s
  unfolding Kept
  stays = (inl refl, inl (refl, refl))

  -- A move on the groups.
  pub moved :
      (a : Account) (t : GroupTables)
      → caller c s ≡ some a
      → Move c.now a.id s.tables t
      → Kept c s (record s { tables = t })
  unfolding Kept
  moved a t who m = (inr (a, who, m), inl (refl, refl))

  pub moved_to :
      (a : Account) (s' : Store) (t : GroupTables)
      → s'.tables ≡ t
      → s'.follows ≡ s.follows
      → s'.relationships ≡ s.relationships
      → caller c s ≡ some a
      → Move c.now a.id s.tables t
      → Kept c s s'
  unfolding Kept
  moved_to a s' t e f r who m =
      (inr (a, who, subst (Move c.now a.id s.tables) (sym e) m), inl (f, r))

  -- A statement that only the owner's call lets through.
  pub guarded :
      {P : Type 0} (a : Account) (t' t : GroupTables)
      → caller c s ≡ some a
      → (P × (t' ≡ t)) ⊎ (t' ≡ s.tables)
      → (P → Move c.now a.id s.tables t)
      → Kept c s (record s { tables = t' })
  unfolding Kept
  guarded a t' t who (inl e) m =
      (inr (a, who, subst (Move c.now a.id s.tables) (sym e.1) (m e.0)), inl (refl, refl))
  guarded a t' t who (inr e) m = (inl e, inl (refl, refl))

  -- A move on the follow graph and the blocks, and a push, which is in neither table.
  pub linked_to :
      (a : Account) (s' : Store) (f : List SocialFollow) (r : List SocialRelationship)
      → s'.tables ≡ s.tables
      → s'.follows ≡ f
      → s'.relationships ≡ r
      → caller c s ≡ some a
      → Link c.now a.id s f r
      → Kept c s s'
  unfolding Kept
  linked_to a s' f r e ef er who l = (
    inl e,
    inr (
      a,
      who,
      subst (λ x. Link c.now a.id s x s'.relationships) (sym ef)
          (subst (λ x. Link c.now a.id s f x) (sym er) l),
    ),
  )

  pub linked :
      (a : Account) (s' : Store)
      → s'.tables ≡ s.tables
      → caller c s ≡ some a
      → Link c.now a.id s s'.follows s'.relationships
      → Kept c s s'
  unfolding Kept
  linked a s' e who l = (inl e, inr (a, who, l))

  pub both :
      (a : Account) (s' : Store)
      → caller c s ≡ some a
      → Move c.now a.id s.tables s'.tables
      → Link c.now a.id s s'.follows s'.relationships
      → Kept c s s'
  unfolding Kept
  both a s' who m l = (inr (a, who, m), inr (a, who, l))
