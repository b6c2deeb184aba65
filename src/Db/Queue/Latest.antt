-- ===== src/Db/Queue/Latest.antt =====
-- The history's upsert, read back.
use podcast_backend.Prelude.{
  ℕ, ltb_ℤ, ◌<ℤ◌, String, true, false, Option, none, some, List, ◌≡◌, refl, sym, ◌∙◌, ap, ◌⊎◌, inl,
  inr, arith, if◌then◌else◌, Bool-cases, Option-cases,
}
use podcast_backend.Db.Table.{at, find}
use podcast_backend.Db.Table.Laws.{find-put, at-eq}
use podcast_backend.Db.Rows.{History, history_key}
use podcast_backend.Db.Queue.{upsert_history}

-- The later of the stored row and the new one; the stored one where they are equal.
abbrev pub later_row : Option History → History → History
later_row none h = h
later_row (some old) h = if ltb_ℤ old.modified_at h.modified_at then h else old

module _ (h : History) (rows : List History) (user : ℕ) (uuid : String) where
  abbrev stored : Option History
  stored = find h.user_id h.episode_uuid rows

  kept_row :
      (old : History)
      → stored ≡ some old
      → find user uuid rows ≡ (if at user uuid h then some old else find user uuid rows)
  kept_row old e = elim (Bool-cases (at user uuid h)) [
    | inl a ↦ let (eu, en) = at-eq user uuid h a in rw (a, ← eu, ← en) e
    | inr a ↦ rw a refl
  ]

  -- After a history upsert, the row of its episode is the later of the stored one and the new
  -- one, and every other row is as before.
  pub upsert_history-find :
      find user uuid (upsert_history (find h.user_id h.episode_uuid rows) h rows) ≡ (
        if at user uuid h
        then some (later_row (find h.user_id h.episode_uuid rows) h)
        else find user uuid rows)
  unfolding upsert_history
  upsert_history-find = elim (Option-cases stored) [
    | inl e ↦ rw e (find-put user uuid h rows)
    | inr (old, e) ↦ elim (Bool-cases (ltb_ℤ old.modified_at h.modified_at)) [
      | inl l ↦ rw (e, l) (find-put user uuid h rows)
      | inr l ↦ rw (e, l) (kept_row old e)
    ]
  ]

-- The statement on the table, with the row that it finds.
abbrev pub upserted : History → List History → List History
upserted h rows = upsert_history (find h.user_id h.episode_uuid rows) h rows

later_row_comm :
    (o : Option History) (a b : History)
    → (a.modified_at <ℤ b.modified_at) ⊎ (b.modified_at <ℤ a.modified_at)
    → later_row (some (later_row o b)) a ≡ later_row (some (later_row o a)) b
later_row_comm none a b h = ground arith
later_row_comm (some r) a b h = ground arith

module _ (user : ℕ) (uuid : String) (h : History) (rows : List History) where
  -- An upsert of the row that is read, and one of another.
  hit :
      at user uuid h ≡ true
      → find user uuid (upserted h rows) ≡ some (later_row (find user uuid rows) h)
  hit p =
      let (eu, en) = at-eq user uuid h p in
      let same : find h.user_id h.episode_uuid rows ≡ find user uuid rows =
        ap (λ u. find u h.episode_uuid rows) eu ∙ ap (λ n. find user n rows) en in
      upsert_history-find h rows user uuid ∙ rw p (ap (λ o. some (later_row o h)) same)

  miss : at user uuid h ≡ false → find user uuid (upserted h rows) ≡ find user uuid rows
  miss p = upsert_history-find h rows user uuid ∙ rw p refl

module _ (rows : List History) (user : ℕ) (uuid : String) where
  both :
      (a b : History)
      → at user uuid a ≡ true
      → at user uuid b ≡ true
      → find user uuid (upserted a (upserted b rows))
        ≡ some (later_row (some (later_row (find user uuid rows) b)) a)
  both a b p q =
      hit user uuid a (upserted b rows) p ∙ ap (λ o. some (later_row o a)) (hit user uuid b rows q)

  only :
      (a b : History)
      → at user uuid a ≡ true
      → at user uuid b ≡ false
      → find user uuid (upserted a (upserted b rows))
        ≡ find user uuid (upserted b (upserted a rows))
  only a b p q =
      hit user uuid a (upserted b rows) p
      ∙ ap (λ o. some (later_row o a)) (miss user uuid b rows q)
      ∙ sym (hit user uuid a rows p)
      ∙ sym (miss user uuid b (upserted a rows) q)

  neither :
      (a b : History)
      → at user uuid a ≡ false
      → at user uuid b ≡ false
      → find user uuid (upserted a (upserted b rows)) ≡ find user uuid rows
  neither a b p q = miss user uuid a (upserted b rows) p ∙ miss user uuid b rows q

  -- Two history upserts with different stamps leave, at every key, the same row in either order.
  pub upserted_comm :
      (a b : History)
      → (a.modified_at <ℤ b.modified_at) ⊎ (b.modified_at <ℤ a.modified_at)
      → find user uuid (upserted a (upserted b rows))
        ≡ find user uuid (upserted b (upserted a rows))
  upserted_comm a b h = elim (Bool-cases (at user uuid a)) [
    | inl p ↦ elim (Bool-cases (at user uuid b)) [
      | inl q ↦
          both a b p q ∙ ap some (later_row_comm (find user uuid rows) a b h) ∙ sym (both b a q p)
      | inr q ↦ only a b p q
    ]
    | inr p ↦ elim (Bool-cases (at user uuid b)) [
      | inl q ↦ sym (only b a q p)
      | inr q ↦ neither a b p q ∙ sym (neither b a q p)
    ]
  ]
