-- ===== src/Sync/Milestones/Exact.antt =====
-- Which milestones a detection leaves.
use podcast_backend.Prelude.{
  ℕ, ℤ, ◌+ℤ◌, pos, leb_ℤ, leb, Bool, true, false, ◌&&◌, ◌||◌, List, [], ◌∷◌, ◌==◌, ==_iff, length,
  select, ◌≡◌, ◌⊎◌, if◌then◌else◌, refl, ◌∙◌, ap, subst, inl, inr, arith, Bool-cases,
}
use podcast_backend.Errs.{ok, err, native, out_of_range}
use podcast_backend.Db.Rows.{Milestone}
use podcast_backend.Db.Tx.{Db, Session, Tx, pure, ◌>>=◌, ◌>>◌}
use podcast_backend.Db.Tx.Laws.{>>=-ok}
use podcast_backend.Db.Milestones.{
  ListeningTotals, count_finished, fits_bigint, fits_int, in_range, sum_listened, has_milestone,
  insert_if_new, insert_milestone, eight_days, insert_milestone_backdated, get_listening_totals,
  count_milestones_for_user,
}
use podcast_backend.Sync.Milestones.{
  insert, insert_if, climb, whole_hours, milestone_tiers, detect_milestones,
}

-- A kind's total has reached a tier: hours listened (kind 1), episodes finished (kind 2).
abbrev pub reached : ListeningTotals → ℕ → ℕ → Bool
reached totals kind tier =
    (kind == 1 && leb_ℤ (pos tier) (whole_hours totals.listened_seconds))
    || (kind == 2 && leb tier totals.episodes_finished)

unfoldable pub on_ladder : ℕ → List ℕ → Bool
on_ladder tier [] = false
on_ladder tier (t ∷ ts) = tier == t || on_ladder tier ts

abbrev pub with_milestones : List Milestone → Session → Session
with_milestones ms s = record s { db = record s.db { milestones = ms } }

insert_if_new-has :
    (m : Milestone) (ms : List Milestone) (u k t : ℕ)
    → has_milestone u k t (insert_if_new m ms)
      ≡ (has_milestone u k t ms || (u == m.user_id && (k == m.kind && t == m.tier)))
unfolding insert_if_new has_milestone
insert_if_new-has m ms u k t = ground arith

module _ (db_now : ℤ) (user : ℕ) where
  insert_if-has :
      (b : Bool) (existing kind tier : ℕ) (s : Session)
      → (ms : List Milestone) × (insert_if db_now user b existing kind tier s
          ≡ ok (tt, with_milestones ms s))
        × ((u k t : ℕ)
            → has_milestone u k t ms ≡ (
                has_milestone u k t s.db.milestones
                || (b && (u == user && (k == kind && t == tier)))))
  unfolding insert_if insert insert_milestone insert_milestone_backdated
  insert_if-has false existing kind tier s = (s.db.milestones, refl, λ u k t. ground arith)
  insert_if-has true existing kind tier s = elim (Bool-cases (existing == 0)) [
    | inl e ↦
        let m : Milestone = record {
          user_id = user;
          kind = kind;
          tier = tier;
          crossed_at = db_now +ℤ eight_days;
        } in
        (insert_if_new m s.db.milestones, rw e refl, insert_if_new-has m s.db.milestones)
    | inr e ↦
        let m : Milestone = record {
          user_id = user;
          kind = kind;
          tier = tier;
          crossed_at = db_now;
        } in
        (insert_if_new m s.db.milestones, rw e refl, insert_if_new-has m s.db.milestones)
  ]

  -- One tier's two insertions and the rest of the ladder, as one test.
  rung :
      (h p k1 k2 b1 b2 l : Bool)
      → ((h || (b1 && (p && (k1 && true)))) || (b2 && (p && (k2 && true))))
          || (p && (l && ((k1 && b1) || (k2 && b2))))
        ≡ (h || (p && ((k1 && b1) || (k2 && b2))))
  rung h p k1 k2 b1 b2 l = ground arith

  other_rung :
      (h p k1 k2 b1 b2 r : Bool)
      → ((h || (b1 && (p && (k1 && false)))) || (b2 && (p && (k2 && false)))) || r ≡ (h || r)
  other_rung h p k1 k2 b1 b2 r = ground arith

  module _ (existing : ℕ) (totals : ListeningTotals) where
    rung-reached :
        (h : Bool) (u k t tier : ℕ) (tiers : List ℕ)
        → ((h
                || (leb_ℤ (pos tier) (whole_hours totals.listened_seconds)
                    && (u == user && (k == 1 && t == tier))))
              || (leb tier totals.episodes_finished && (u == user && (k == 2 && t == tier))))
            || (u == user && (on_ladder t tiers && reached totals k t))
          ≡ (h || (u == user && (on_ladder t (tier ∷ tiers) && reached totals k t)))
    unfolding on_ladder
    rung-reached h u k t tier tiers = elim (Bool-cases (t == tier)) [
      | inl e ↦
          subst
            (λ z.
              ((h
                    || (leb_ℤ (pos z) (whole_hours totals.listened_seconds)
                        && (u == user && (k == 1 && t == tier))))
                  || (leb z totals.episodes_finished && (u == user && (k == 2 && t == tier))))
                || (u == user && (on_ladder t tiers && reached totals k t))
              ≡ (h || (u == user && (on_ladder t (tier ∷ tiers) && reached totals k t))))
            ((==_iff t tier).0 e)
            (rw e (
              rung h (u == user) (k == 1) (k == 2)
                (leb_ℤ (pos t) (whole_hours totals.listened_seconds))
                (leb t totals.episodes_finished) (on_ladder t tiers)))
      | inr e ↦ rw e (
          other_rung h (u == user) (k == 1) (k == 2)
            (leb_ℤ (pos tier) (whole_hours totals.listened_seconds))
            (leb tier totals.episodes_finished)
            (u == user && (on_ladder t tiers && reached totals k t)))
    ]

    climb-has :
        (tiers : List ℕ) (s : Session)
        → (ms : List Milestone) × (climb db_now user tiers existing totals s
            ≡ ok (tt, with_milestones ms s))
          × ((u k t : ℕ)
              → has_milestone u k t ms ≡ (
                  has_milestone u k t s.db.milestones
                  || (u == user && (on_ladder t tiers && reached totals k t))))
    unfolding climb on_ladder
    climb-has [] s = (s.db.milestones, refl, λ u k t. ground arith)
    climb-has (tier ∷ tiers) s =
        let b1 = leb_ℤ (pos tier) (whole_hours totals.listened_seconds) in
        let b2 = leb tier totals.episodes_finished in
        let (ms1, e1, h1) = insert_if-has b1 existing 1 tier s in
        let (ms2, e2, h2) = insert_if-has b2 existing 2 tier (with_milestones ms1 s) in
        let (ms3, e3, h3) = climb-has tiers (with_milestones ms2 s) in
        (
          ms3,
          >>=-ok (insert_if db_now user b1 existing 1 tier)
                (λ _.
                  insert_if db_now user b2 existing 2 tier
                  >> climb db_now user tiers existing totals)
                s e1
              ∙ >>=-ok (insert_if db_now user b2 existing 2 tier)
                  (λ _. climb db_now user tiers existing totals) (with_milestones ms1 s) e2
              ∙ e3,
          λ u k t.
              h3 u k t
              ∙ ap (λ z. z || (u == user && (on_ladder t tiers && reached totals k t)))
                  (h2 u k t
                    ∙ ap (λ z. z || (b2 && (u == user && (k == 2 && t == tier)))) (h1 u k t))
              ∙ rung-reached (has_milestone u k t s.db.milestones) u k t tier tiers,
        )

-- What GetListeningTotals reads.
abbrev pub totals_of : ℕ → Db → ListeningTotals
totals_of user db = record {
  listened_seconds = sum_listened user db.episodes;
  episodes_finished = count_finished user db.episodes;
}

-- They are in the ranges of bigint and int.
abbrev pub fit : ℕ → Db → Bool
fit user db =
    fits_bigint (sum_listened user db.episodes) && fits_int (count_finished user db.episodes)

-- What a detection does with the totals.
abbrev rest : ℤ → ℕ → ListeningTotals → Tx Unit
rest db_now user totals =
    count_milestones_for_user user >>= λ existing. climb db_now user milestone_tiers existing totals

-- The two casts of the query, by their outcomes.
abbrev cast_both : ℕ → Bool → Bool → Tx ListeningTotals
cast_both user b c s =
    (in_range b (sum_listened user s.db.episodes) >>= λ seconds.
    in_range c (count_finished user s.db.episodes) >>= λ finished.
    pure (record { listened_seconds = seconds; episodes_finished = finished }))
      s

cast_both-eq :
    (user : ℕ) (b c : Bool) (s : Session)
    → cast_both user b c s
      ≡ (if b && c then ok (totals_of user s.db, s) else err (native out_of_range, s))
cast_both-eq user true true s = refl
cast_both-eq user false c s = refl
cast_both-eq user true false s = refl

get_listening_totals-eq :
    (user : ℕ) (s : Session)
    → get_listening_totals user s
      ≡ (if fit user s.db then ok (totals_of user s.db, s) else err (native out_of_range, s))
unfolding get_listening_totals
get_listening_totals-eq user s = cast_both-eq user _ _ s

get_listening_totals-ok :
    (user : ℕ) (s : Session)
    → fit user s.db ≡ true
    → get_listening_totals user s ≡ ok (totals_of user s.db, s)
get_listening_totals-ok user s f = get_listening_totals-eq user s ∙ rw f refl

get_listening_totals-err :
    (user : ℕ) (s : Session)
    → fit user s.db ≡ false
    → get_listening_totals user s ≡ err (native out_of_range, s)
get_listening_totals-err user s f = get_listening_totals-eq user s ∙ rw f refl

-- Where the seconds listened fit a bigint and the episodes finished an int, a detection returns,
-- changes the milestones alone, and leaves exactly those that were there and, of this user, each
-- tier of the ladder that the total of its kind has reached: hours listened, or episodes finished.
-- Where one does not fit, it fails with an error of the database.
pub detect_milestones-exact :
    (db_now : ℤ) (user : ℕ) (s : Session)
    → ((fit user s.db ≡ true)
        × ((ms : List Milestone) × (detect_milestones db_now user s ≡ ok (tt, with_milestones ms s))
            × ((u kind tier : ℕ)
                → has_milestone u kind tier ms ≡ (
                    has_milestone u kind tier s.db.milestones
                    || (u == user
                        && (on_ladder tier milestone_tiers
                            && reached (totals_of user s.db) kind tier))))))
      ⊎ ((fit user s.db ≡ false) × (detect_milestones db_now user s ≡ err (native out_of_range, s)))
unfolding detect_milestones count_milestones_for_user
detect_milestones-exact db_now user s = elim (Bool-cases (fit user s.db)) [
  | inl f ↦
      let seen = length (select (λ (m : Milestone). m.user_id == user) s.db.milestones) in
      let (ms, e, h) = climb-has db_now user seen (totals_of user s.db) milestone_tiers s in
      inl (
        f,
        (
          ms,
          >>=-ok (get_listening_totals user) (rest db_now user) s (get_listening_totals-ok user s f)
              ∙ e,
          h,
        ),
      )
  | inr f ↦ inr (
    f,
    ap (λ r. elim r [ err e ↦ err e | ok (x, t) ↦ rest db_now user x t ])
        (get_listening_totals-err user s f),
  )
]
