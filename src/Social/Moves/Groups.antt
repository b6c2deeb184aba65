-- ===== src/Social/Moves/Groups.antt =====
-- Creating, changing and deleting a group keep to the moves.
use podcast_backend.Prelude.{
  ℤ, not, false, ◌≡◌, pos, eq_ℤ, eq_ℤ_iff, ap, inl, inr, Bool-cases, pos_part, Option, arith,
}
use podcast_backend.Social.Handler.{Store}
use podcast_backend.Social.Handler.Ends.{or_answer-Ends, refuse_if-Ends, next-Ends}
use podcast_backend.Social.GroupQueries.{create_social_group}
use podcast_backend.Social.Guards.{Context, to_int16}
use podcast_backend.Social.Groups.{
  post_group_create, post_group_update, post_group_delete, is_visibility,
}
use podcast_backend.Social.Messages.{GroupCreateRequest, GroupUpdateRequest, GroupDeleteRequest}
use podcast_backend.Social.Roles.Owner.{update-guard, delete-guard}
use podcast_backend.Social.Moves.{Move, IsVisibility}
use podcast_backend.Social.Moves.Row.{get_social_group-Reads}
use podcast_backend.Social.Moves.Steps.{
  Kept, stays, moved, guarded, require_joined-Ends, check_texts-Ends,
}

to-IsVisibility : (v : ℤ) → not (is_visibility v) ≡ false → IsVisibility (pos_part v)
to-IsVisibility v h = elim (Bool-cases (eq_ℤ v (pos 1))) [
  | inl one ↦ inl (ap pos_part ((eq_ℤ_iff v (pos 1)).0 one))
  | inr other ↦ inr (ground (arith, eq_ℤ_iff v (pos 2)))
]

module _ (c : Context) (s : Store) where
  pub create-Kept : (body : Option GroupCreateRequest) → Kept c s (post_group_create c body s).1
  unfolding post_group_create create_social_group
  create-Kept body = or_answer-Ends (Kept c s) body _ _ s (stays c s) λ req e.
      refuse_if-Ends (Kept c s) _ _ _ s (stays c s) λ g1.
        refuse_if-Ends (Kept c s) _ _ _ s (stays c s) λ g2.
          refuse_if-Ends (Kept c s) _ _ _ s (stays c s) λ g3.
            check_texts-Ends (Kept c s) c _ _ _ s (stays c s) (
              require_joined-Ends (Kept c s) c _ s (stays c s) λ a p who.
                next-Ends (Kept c s) _ _ _ (
                  next-Ends (Kept c s) _ _ _ (
                    moved c s a _ who
                      (Move.create _ _ _ _ _ (to-IsVisibility (to_int16 req.visibility) g2)))))

  pub update-Kept : (body : Option GroupUpdateRequest) → Kept c s (post_group_update c body s).1
  unfolding post_group_update
  update-Kept body = or_answer-Ends (Kept c s) body _ _ s (stays c s) λ req e.
      refuse_if-Ends (Kept c s) _ _ _ s (stays c s) λ g1.
        refuse_if-Ends (Kept c s) _ _ _ s (stays c s) λ g2.
          check_texts-Ends (Kept c s) c _ _ _ s (stays c s) (
            require_joined-Ends (Kept c s) c _ s (stays c s) λ a p who.
              or_answer-Ends (Kept c s) _ _ _ s (stays c s) λ row r.
                let known = get_social_group-Reads (pos_part req.id) a.id s row r in
                refuse_if-Ends (Kept c s) _ _ _ s (stays c s) λ g3.
                  let m =
                    guarded c s a _ _ who (update-guard (pos_part req.id) a.id s.tables c.now _ _ _)
                      λ own.
                        Move.update (pos_part req.id) _ _ _ own
                          (to-IsVisibility (to_int16 req.visibility) g2)
                          λ was public. ground arith in
                  next-Ends (Kept c s) _ _ _ (refuse_if-Ends (Kept c s) _ _ _ _ m (λ g4. m)))

  pub delete-Kept : (body : Option GroupDeleteRequest) → Kept c s (post_group_delete c body s).1
  unfolding post_group_delete
  delete-Kept body = or_answer-Ends (Kept c s) body _ _ s (stays c s) λ req e.
      refuse_if-Ends (Kept c s) _ _ _ s (stays c s) λ g.
        require_joined-Ends (Kept c s) c _ s (stays c s) λ a p who.
          let m =
            guarded c s a _ _ who (delete-guard (pos_part req.id) a.id s.tables)
              (Move.delete (pos_part req.id)) in
          next-Ends (Kept c s) _ _ _ (refuse_if-Ends (Kept c s) _ _ _ _ m (λ g4. m))
