-- ===== src/Sync/UpNext/Play.antt =====
-- Where a play action puts its episode, and what it leaves alone.
use podcast_backend.Prelude.{
  ℕ, ℤ, pos, false, List, [], ◌∷◌, ◌++◌, str_eq, ◌≡◌, refl, sym, ◌∙◌, ap, subst, ◌⊎◌, inl, inr,
  length, Bool-cases,
}
use podcast_backend.Wire.Queue.{UpNextChange}
use podcast_backend.Db.Rows.{UpNextItem}
use podcast_backend.Sync.UpNext.{
  Action, action_of, play_index, insert_at, remove_from_queue, change_item, play, replacement,
  apply_action, apply_up_next_change, play_now, play_next, play_last, remove, replace, other_action,
}
use podcast_backend.Sync.UpNext.Distinct.{
  Distinct, remove_from_queue-Fresh, remove_from_queue-Distinct, insert_at-Distinct,
  remove_from_queue_idem, remove_from_queue-insert_at,
}

-- The queue that the client expects of each play action, by the action's number.
pub data Placed (item : UpNextItem) : List UpNextItem → ℤ → List UpNextItem → Type 0 where
  now : (rest : List UpNextItem) → Placed item rest (pos 1) (item ∷ rest)
  next_of_none : Placed item [] (pos 2) (item ∷ [])
  next :
      (head : UpNextItem) (tail : List UpNextItem)
      → Placed item (head ∷ tail) (pos 2) (head ∷ item ∷ tail)
  last : (rest : List UpNextItem) → Placed item rest (pos 3) (rest ++ item ∷ [])

abbrev pub IsPlay : ℤ → Type 0
IsPlay a = (a ≡ pos 1) ⊎ (a ≡ pos 2) ⊎ (a ≡ pos 3)

insert_at-end :
    (item : UpNextItem) (q : List UpNextItem) → insert_at (length q) item q ≡ q ++ item ∷ []
unfolding insert_at
insert_at-end item [] = refl
insert_at-end item (x ∷ q) = ap (λ z. x ∷ z) (insert_at-end item q)

module _ (user : ℕ) where
  abbrev others : UpNextChange → List UpNextItem → List UpNextItem
  others change queue = remove_from_queue queue change.uuid

  place_next :
      (item : UpNextItem) (rest : List UpNextItem)
      → Placed item rest (pos 2) (insert_at (play_index play_next (length rest)) item rest)
  unfolding play_index insert_at
  place_next item [] = next_of_none
  place_next item (x ∷ rest) = next x rest

  place :
      (item : UpNextItem) (rest : List UpNextItem) (a : ℤ)
      → IsPlay a
      → Placed item rest a (insert_at (play_index (action_of a) (length rest)) item rest)
  unfolding play_index insert_at action_of
  place item rest a (inl e) = rw e (now rest)
  place item rest a (inr (inl e)) = rw e (place_next item rest)
  place item rest a (inr (inr e)) =
      rw e (subst (Placed item rest (pos 3)) (sym (insert_at-end item rest)) (last rest))

  change-IsPlay :
      (queue : List UpNextItem) (change : UpNextChange)
      → IsPlay change.action
      → apply_up_next_change user queue change ≡ play user (action_of change.action) change queue
  unfolding apply_up_next_change apply_action action_of
  change-IsPlay queue change (inl e) = rw e refl
  change-IsPlay queue change (inr (inl e)) = rw e refl
  change-IsPlay queue change (inr (inr e)) = rw e refl

  play_eq :
      (queue : List UpNextItem) (change : UpNextChange)
      → IsPlay change.action
      → str_eq change.uuid "" ≡ false
      → apply_up_next_change user queue change
        ≡ insert_at
            (play_index (action_of change.action) (length (others change queue)))
            (change_item user change)
            (others change queue)
  unfolding play
  play_eq queue change p h = change-IsPlay queue change p ∙ rw h refl

  -- A play action with an episode puts it at the head, right after the head (at the head of an
  -- empty queue), or at the end, of the queue without that episode, as its number says.
  pub apply_up_next_change-Placed :
      (queue : List UpNextItem) (change : UpNextChange)
      → IsPlay change.action
      → str_eq change.uuid "" ≡ false
      → Placed
          (change_item user change)
          (remove_from_queue queue change.uuid)
          change.action
          (apply_up_next_change user queue change)
  apply_up_next_change-Placed queue change p h =
      subst (Placed (change_item user change) (remove_from_queue queue change.uuid) change.action)
        (sym (play_eq queue change p h))
        (place (change_item user change) (others change queue) change.action p)

  play-others :
      (a : Action) (queue : List UpNextItem) (change : UpNextChange)
      → remove_from_queue (play user a change queue) change.uuid
        ≡ remove_from_queue queue change.uuid
  unfolding play change_item
  play-others a queue change = elim (Bool-cases (str_eq change.uuid "")) [
    | inl e ↦ rw e refl
    | inr e ↦ rw e (
        remove_from_queue-insert_at (play_index a (length (others change queue)))
          (change_item user change) (others change queue)
        ∙ remove_from_queue_idem queue change.uuid)
  ]

  action-others :
      (a : Action) (queue : List UpNextItem) (change : UpNextChange)
      → (a ≡ replace → ⊥)
      → remove_from_queue (apply_action user a change queue) change.uuid
        ≡ remove_from_queue queue change.uuid
  unfolding apply_action
  action-others play_now queue change h = play-others play_now queue change
  action-others play_next queue change h = play-others play_next queue change
  action-others play_last queue change h = play-others play_last queue change
  action-others remove queue change h = remove_from_queue_idem queue change.uuid
  action-others replace queue change h = absurd (h refl)
  action-others other_action queue change h = refl

  -- Whatever a change does, short of a replacement, it leaves the other episodes and their order
  -- alone.
  pub apply_up_next_change-others :
      (queue : List UpNextItem) (change : UpNextChange)
      → (action_of change.action ≡ replace → ⊥)
      → remove_from_queue (apply_up_next_change user queue change) change.uuid
        ≡ remove_from_queue queue change.uuid
  unfolding apply_up_next_change
  apply_up_next_change-others queue change h =
      action-others (action_of change.action) queue change h

  play-Distinct :
      (a : Action) (queue : List UpNextItem) (change : UpNextChange)
      → Distinct queue
      → Distinct (play user a change queue)
  unfolding play change_item
  play-Distinct a queue change d = elim (Bool-cases (str_eq change.uuid "")) [
    | inl e ↦ rw e d
    | inr e ↦ rw e (
        insert_at-Distinct (play_index a (length (others change queue))) (change_item user change)
          (others change queue) (remove_from_queue-Fresh queue change.uuid)
          (remove_from_queue-Distinct queue change.uuid d))
  ]

  -- No change puts an episode into the queue twice; a replacement must not name one twice.
  pub apply_action-Distinct :
      (a : Action) (queue : List UpNextItem) (change : UpNextChange)
      → Distinct (replacement user change.episodes)
      → Distinct queue
      → Distinct (apply_action user a change queue)
  unfolding apply_action
  apply_action-Distinct play_now queue change r d = play-Distinct play_now queue change d
  apply_action-Distinct play_next queue change r d = play-Distinct play_next queue change d
  apply_action-Distinct play_last queue change r d = play-Distinct play_last queue change d
  apply_action-Distinct remove queue change r d = remove_from_queue-Distinct queue change.uuid d
  apply_action-Distinct replace queue change r d = r
  apply_action-Distinct other_action queue change r d = d
