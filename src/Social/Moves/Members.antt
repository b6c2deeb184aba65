-- ===== src/Social/Moves/Members.antt =====
-- The endpoints that change who is in a group keep to the moves.
use podcast_backend.Prelude.{
  ℕ, pos_part, Bool, true, false, not, Option, none, some, ◌==◌, ◌≡◌, ◌≢◌, refl, sym, ap, subst,
  ◌∙◌, inl, inr, arith, Bool-cases,
}
use podcast_backend.Social.Rows.{Account, SocialProfile, SocialGroupMember}
use podcast_backend.Social.Handler.{Store, GroupTables, Handler, and_then}
use podcast_backend.Social.Handler.Ends.{
  or_answer-Ends, refuse_if-Ends, next-Ends, nested-Ends, reply-Ends,
}
use podcast_backend.Social.Guards.{Context, caller, current_db_user}
use podcast_backend.Social.Messages.{
  GroupJoinRequest, GroupLeaveRequest, GroupInviteRequest, GroupInviteRespondRequest,
  GroupKickRequest, GroupAlertRequest, EraseRequest,
}
use podcast_backend.Social.Moves.{Move, HasSeat, IsActive}
use podcast_backend.Social.Moves.Row.{get_social_group-Reads, member-role, Reads}
use podcast_backend.Social.Roles.{role_of}
use podcast_backend.Social.GroupQueries.{get_group_member, GetSocialGroupRow, is_active_role}
use podcast_backend.Social.Moves.Steps.{
  Kept, stays, moved, moved_to, both, require_joined-Ends, resolve_follow_target-Ends,
}
use podcast_backend.Social.Members.{
  post_group_join, post_group_leave, post_group_invite, post_group_invite_respond, post_group_kick,
  post_group_alert, already_in, notify_invite, kicked, respond, is_full,
}
use podcast_backend.Social.Erase.{post_social_erase, social_erase}
use podcast_backend.Social.Links.{Link}

-- A member's role, against one that it is not.
not-role : (o : Option ℕ) (r n : ℕ) → o ≡ some r → (r == n) ≡ false → o ≢ some n
not-role o r n e h k = ground arith

IsActive-role : {o : Option ℕ} (r : ℕ) → o ≡ some r → not (is_active_role r) ≡ false → IsActive o
IsActive-role r e h = elim (Bool-cases (r == 1)) [
  | inl one ↦ inl (e ∙ ap some (ground arith))
  | inr other ↦ inr (e ∙ ap some (ground arith))
]

has-seat :
    (g u : ℕ) (t : GroupTables) (row : GetSocialGroupRow)
    → Reads g u t row
    → is_full row ≡ false
    → HasSeat g t
has-seat g u t row known h private = ground arith

no-row : (g u : ℕ) (s : Store) → get_group_member g u s ≡ none → role_of g u s.tables ≡ none
unfolding role_of
no-row g u s e = rw e refl

notify_invite-tables :
    (c : Context) (g w u : ℕ) (p : SocialProfile) (s : Store)
    → (notify_invite c g w u p s).tables ≡ s.tables
unfolding notify_invite
notify_invite-tables c g w u p s = ground arith

notify_invite-follows :
    (c : Context) (g w u : ℕ) (p : SocialProfile) (s : Store)
    → (notify_invite c g w u p s).follows ≡ s.follows
unfolding notify_invite
notify_invite-follows c g w u p s = ground arith

notify_invite-relationships :
    (c : Context) (g w u : ℕ) (p : SocialProfile) (s : Store)
    → (notify_invite c g w u p s).relationships ≡ s.relationships
unfolding notify_invite
notify_invite-relationships c g w u p s = ground arith

already_in-Ends :
    {B : Type 0} (P : Store → Type 0) (c : Context) (o : Option SocialGroupMember)
    (f : Unit → Handler B) (s : Store)
    → P s
    → (o ≡ none → P (f tt s).1)
    → P (and_then (already_in c o s) f).1
unfolding already_in
already_in-Ends P c none f s p k = next-Ends P _ _ _ (k refl)
already_in-Ends P c (some m) f s p k =
    nested-Ends P _ _ f (refuse_if-Ends P _ _ _ s p λ e. reply-Ends P _ f s p)

module _ (c : Context) (s : Store) where
  kicked-Move :
      (u g w : ℕ) (ban : Bool)
      → role_of g u s.tables ≡ some 2
      → w ≢ u
      → Move c.now u s.tables (kicked c g w ban s.tables)
  unfolding kicked
  kicked-Move u g w true r e = Move.ban g w r e
  kicked-Move u g w false r e = Move.kick g w r e

  respond-Ends :
      (a : Account) (g : ℕ) (accept : Bool) (f : Unit → Handler Unit)
      → caller c s ≡ some a
      → role_of g a.id s.tables ≡ some 3
      → ((s' : Store) → (f tt s').1 ≡ s')
      → Kept c s (and_then (respond c g a.id accept s) f).1
  unfolding respond
  respond-Ends a g false f who r ends = next-Ends (Kept c s) _ _ _ (
      subst (Kept c s) (sym (ends _))
        (moved c s a _ who (Move.leave g (not-role _ 3 4 r refl) (not-role _ 3 2 r refl))))
  respond-Ends a g true f who r ends = nested-Ends (Kept c s) _ _ f (
      or_answer-Ends (Kept c s) _ _ _ s (stays c s) λ row e. nested-Ends (Kept c s) _ _ f (
        refuse_if-Ends (Kept c s) _ _ _ s (stays c s) λ seat. next-Ends (Kept c s) _ _ _ (
          subst (Kept c s) (sym (ends _)) (
            moved c s a _ who (
              Move.accept g r
                (has-seat g a.id s.tables row (get_social_group-Reads g a.id s row e) seat))))))

  pub join-Kept : (body : Option GroupJoinRequest) → Kept c s (post_group_join c body s).1
  unfolding post_group_join
  join-Kept body = or_answer-Ends (Kept c s) body _ _ s (stays c s) λ req e.
      refuse_if-Ends (Kept c s) _ _ _ s (stays c s) λ g.
        require_joined-Ends (Kept c s) c _ s (stays c s) λ a p who.
          or_answer-Ends (Kept c s) _ _ _ s (stays c s) λ row r.
            let known = get_social_group-Reads (pos_part req.id) a.id s row r in
            refuse_if-Ends (Kept c s) _ _ _ s (stays c s) λ public.
              refuse_if-Ends (Kept c s) _ _ _ s (stays c s) λ free.
                refuse_if-Ends (Kept c s) _ _ _ s (stays c s) λ out. next-Ends (Kept c s) _ _ _ (
                  moved c s a _ who (
                    Move.join (pos_part req.id) (ground arith) (known.banned free)
                      (known.active out)))

  pub leave-Kept : (body : Option GroupLeaveRequest) → Kept c s (post_group_leave c body s).1
  unfolding post_group_leave
  leave-Kept body = or_answer-Ends (Kept c s) body _ _ s (stays c s) λ req e.
      refuse_if-Ends (Kept c s) _ _ _ s (stays c s) λ g.
        require_joined-Ends (Kept c s) c _ s (stays c s) λ a p who.
          or_answer-Ends (Kept c s) _ _ _ s (stays c s) λ m r.
            refuse_if-Ends (Kept c s) _ _ _ s (stays c s) λ free.
              refuse_if-Ends (Kept c s) _ _ _ s (stays c s) λ other. next-Ends (Kept c s) _ _ _ (
                moved c s a _ who (
                  Move.leave (pos_part req.id) (not-role _ m.role 4 (member-role _ _ s m r) free)
                    (not-role _ m.role 2 (member-role _ _ s m r) other)))

  pub invite-Kept : (body : Option GroupInviteRequest) → Kept c s (post_group_invite c body s).1
  unfolding post_group_invite
  invite-Kept body = or_answer-Ends (Kept c s) body _ _ s (stays c s) λ req e.
      refuse_if-Ends (Kept c s) _ _ _ s (stays c s) λ g.
        require_joined-Ends (Kept c s) c _ s (stays c s) λ a p who.
          or_answer-Ends (Kept c s) _ _ _ s (stays c s) λ m r.
            refuse_if-Ends (Kept c s) _ _ _ s (stays c s) λ active.
              or_answer-Ends (Kept c s) _ _ _ s (stays c s) λ row r'.
                let known = get_social_group-Reads (pos_part req.group_id) a.id s row r' in
                refuse_if-Ends (Kept c s) _ _ _ s (stays c s) λ seat.
                  resolve_follow_target-Ends (Kept c s) c _ _ _ s (stays c s) λ t known' other free.
                    next-Ends (Kept c s) _ _ _ (
                      already_in-Ends (Kept c s) c _ _ s (stays c s) λ absent.
                        next-Ends (Kept c s) _ _ _ (
                          next-Ends (Kept c s) _ _ _ (
                            moved_to c s a _ _ (notify_invite-tables c _ _ _ _ _)
                              (notify_invite-follows c _ _ _ _ _)
                              (notify_invite-relationships c _ _ _ _ _) who
                              (Move.invite (pos_part req.group_id) t.user_id
                                (IsActive-role m.role (member-role _ _ s m r) active)
                                (has-seat (pos_part req.group_id) a.id s.tables row known seat)
                                (no-row _ _ s absent)))))

  pub respond-Kept :
      (body : Option GroupInviteRespondRequest) → Kept c s (post_group_invite_respond c body s).1
  unfolding post_group_invite_respond
  respond-Kept body = or_answer-Ends (Kept c s) body _ _ s (stays c s) λ req e.
      refuse_if-Ends (Kept c s) _ _ _ s (stays c s) λ g.
        require_joined-Ends (Kept c s) c _ s (stays c s) λ a p who.
          or_answer-Ends (Kept c s) _ _ _ s (stays c s) λ m r.
            refuse_if-Ends (Kept c s) _ _ _ s (stays c s) λ invited.
              respond-Ends a (pos_part req.group_id) req.accept _ who
                (member-role _ _ s m r ∙ ap some (ground arith)) (λ s'. refl)

  pub kick-Kept : (body : Option GroupKickRequest) → Kept c s (post_group_kick c body s).1
  unfolding post_group_kick
  kick-Kept body = or_answer-Ends (Kept c s) body _ _ s (stays c s) λ req e.
      refuse_if-Ends (Kept c s) _ _ _ s (stays c s) λ g.
        require_joined-Ends (Kept c s) c _ s (stays c s) λ a p who.
          or_answer-Ends (Kept c s) _ _ _ s (stays c s) λ m r.
            refuse_if-Ends (Kept c s) _ _ _ s (stays c s) λ owner.
              or_answer-Ends (Kept c s) _ _ _ s (stays c s) λ t r'.
                refuse_if-Ends (Kept c s) _ _ _ s (stays c s) λ other. next-Ends (Kept c s) _ _ _ (
                  moved c s a _ who (
                    kicked-Move a.id (pos_part req.group_id) t.user_id req.ban
                      (member-role _ _ s m r ∙ ap some (ground arith)) (ground arith)))

  pub alert-Kept : (body : Option GroupAlertRequest) → Kept c s (post_group_alert c body s).1
  unfolding post_group_alert
  alert-Kept body = or_answer-Ends (Kept c s) body _ _ s (stays c s) λ req e.
      refuse_if-Ends (Kept c s) _ _ _ s (stays c s) λ g.
        require_joined-Ends (Kept c s) c _ s (stays c s) λ a p who.
          let m = moved c s a _ who (Move.alert (pos_part req.group_id) req.enabled) in
          next-Ends (Kept c s) _ _ _ (refuse_if-Ends (Kept c s) _ _ _ _ m (λ g4. m))

  pub erase-Kept : (body : Option EraseRequest) → Kept c s (post_social_erase c body s).1
  unfolding post_social_erase current_db_user social_erase
  erase-Kept body = or_answer-Ends (Kept c s) body _ _ s (stays c s) λ req e.
      or_answer-Ends (Kept c s) _ _ _ s (stays c s)
        λ a who. next-Ends (Kept c s) _ _ _ (both c s a _ who Move.erase Link.erase)
