-- ===== src/Sync/Library/Joined.antt =====
-- The bookmarks folded into the episodes of a podcast.
use podcast_backend.Prelude.{
  ℕ, String, Bool, true, false, ◌&&◌, ◌||◌, not, Option, List, [], ◌∷◌, ◌++◌, str_eq, eq_iff,
  eq_refl, ◌==◌, ◌≡◌, refl, sym, ◌∙◌, ap, arith, map, select, In, map-In, inl, inr, Bool-cases,
}
use podcast_backend.Errs.{ok, err, E, Arg, database, is_no_rows}
use podcast_backend.Db.Table.{find}
use podcast_backend.Db.Rows.{Bookmark, UserEpisode, UserPodcast, podcast_key}
use podcast_backend.Db.Tx.{Ran, Db, Session, Tx, or_no_rows, pure, ◌>>=◌}
use podcast_backend.Db.Tx.Laws.{>>=-ok}
use podcast_backend.Db.Queue.{has_uuid}
use podcast_backend.Db.Library.{get_user_podcast}
use podcast_backend.Db.Lists.{get_user_episodes_for_podcast, get_bookmarks_for_episodes}
use podcast_backend.Wire.Library.{BookmarkResponse, SyncEpisodesResponse}
use podcast_backend.Sync.Env.{Env}
use podcast_backend.Sync.Library.{
  ByEpisode, no_bookmarks, by_episode, bookmark_to_response, episode_response, episode_uuids,
  is_empty, bookmarks_if, episodes_response, episodes_body, podcast_episodes,
}

append_assoc : (xs ys zs : List BookmarkResponse) → (xs ++ ys) ++ zs ≡ xs ++ (ys ++ zs)
append_assoc [] ys zs = refl
append_assoc (x ∷ xs) ys zs = ap (λ l. x ∷ l) (append_assoc xs ys zs)

append_nil : (xs : List BookmarkResponse) → xs ++ [] ≡ xs
append_nil [] = refl
append_nil (x ∷ xs) = ap (λ l. x ∷ l) (append_nil xs)

abbrev pub of_episode : String → List Bookmark → List Bookmark
of_episode uuid = select (λ (b : Bookmark). str_eq uuid b.episode_uuid)

by_episode-append :
    (bms : List Bookmark) (m : ByEpisode) (uuid : String)
    → by_episode bms m uuid ≡ m uuid ++ map bookmark_to_response (of_episode uuid bms)
unfolding by_episode select
by_episode-append [] m uuid = sym (append_nil (m uuid))
by_episode-append (b ∷ bms) m uuid = elim (Bool-cases (str_eq uuid b.episode_uuid)) [
  | inl e ↦
      by_episode-append bms _ uuid
      ∙ rw e (
          append_assoc (m uuid) (bookmark_to_response b ∷ [])
            (map bookmark_to_response (of_episode uuid bms)))
  | inr e ↦ by_episode-append bms _ uuid ∙ rw e refl
]

-- The grouping of bookmarks by episode reads, at each episode, exactly the bookmarks of that
-- episode in their order, and nothing at an episode without any.
pub by_episode-exact :
    (bms : List Bookmark) (uuid : String)
    → by_episode bms no_bookmarks uuid
      ≡ map bookmark_to_response (select (λ (b : Bookmark). str_eq uuid b.episode_uuid) bms)
by_episode-exact bms uuid = by_episode-append bms no_bookmarks uuid

has_uuid-In : (u : String) (us : List String) → In u us → has_uuid u us ≡ true
unfolding has_uuid
has_uuid-In u [] i = elim i [ ]
has_uuid-In u (v ∷ us) (inl e) = let p = eq_refl u in rw (← e, p) refl
has_uuid-In u (v ∷ us) (inr i) = rw (has_uuid-In u us i) (or_true (str_eq v u))
  where
    or_true : (b : Bool) → (b || true) ≡ true
    or_true true = refl
    or_true false = refl

module _ (user : ℕ) (db : Db) where
  -- The user's bookmarks of one episode that are not deleted.
  abbrev pub bookmarks_of : ByEpisode
  bookmarks_of uuid = map bookmark_to_response (
      select
        (λ (b : Bookmark). b.user_id == user && (not b.is_deleted && str_eq uuid b.episode_uuid))
        db.bookmarks)

  -- Of the bookmarks of the listed episodes, those of one of them.
  select_listed :
      (uuid : String) (uuids : List String) (bms : List Bookmark)
      → has_uuid uuid uuids ≡ true
      → of_episode uuid (
          select
            (λ (b : Bookmark).
              b.user_id == user && (has_uuid b.episode_uuid uuids && not b.is_deleted))
            bms)
        ≡ select
            (λ (b : Bookmark).
              b.user_id == user && (not b.is_deleted && str_eq uuid b.episode_uuid))
            bms
  unfolding select
  select_listed uuid uuids [] h = refl
  select_listed uuid uuids (b ∷ bms) h =
      ground (arith, select_listed uuid uuids bms h, eq_iff uuid b.episode_uuid)

  abbrev start : Session
  start = record { db = db; ticks = 0; unknown_feeds = [] }

  bookmarks_ok :
      (eps : List UserEpisode)
      → (m : ByEpisode) × (bookmarks_if user (true && not (is_empty eps)) eps start ≡ ok (m, start))
        × ((e : UserEpisode) → In e eps → m e.episode_uuid ≡ bookmarks_of e.episode_uuid)
  unfolding bookmarks_if get_bookmarks_for_episodes
  bookmarks_ok [] = (no_bookmarks, refl, λ e i. elim i [ ])
  bookmarks_ok (x ∷ eps) =
      let listed =
        select
          (λ (b : Bookmark).
            b.user_id == user
            && (has_uuid b.episode_uuid (episode_uuids (x ∷ eps)) && not b.is_deleted))
          db.bookmarks in
      (
        by_episode listed no_bookmarks,
        refl,
        λ e i.
            by_episode-exact listed e.episode_uuid
            ∙ ap (map bookmark_to_response) (
                select_listed e.episode_uuid (episode_uuids (x ∷ eps)) db.bookmarks (
                  has_uuid-In e.episode_uuid (episode_uuids (x ∷ eps))
                    (map-In (λ (r : UserEpisode). r.episode_uuid) e (x ∷ eps) i))),
      )

  responses_eq :
      (m : ByEpisode) (eps : List UserEpisode)
      → ((e : UserEpisode) → In e eps → m e.episode_uuid ≡ bookmarks_of e.episode_uuid)
      → map (episode_response m) eps ≡ map (episode_response bookmarks_of) eps
  unfolding episode_response
  responses_eq m [] h = refl
  responses_eq m (x ∷ eps) h =
      let here = h x (inl refl) in
      let rest = responses_eq m eps (λ e i. h e (inr i)) in
      ap (λ l. episode_response (λ _. l) x ∷ map (episode_response m) eps) here
      ∙ ap (λ l. episode_response bookmarks_of x ∷ l) rest

  -- The episodes of a podcast that the user has a row for.
  abbrev pub episodes_of : String → List UserEpisode
  episodes_of uuid =
      select (λ (e : UserEpisode). e.user_id == user && str_eq e.podcast_uuid uuid) db.episodes

  module _ (env : Env) (uuid : String) (valid : env.is_uuid uuid ≡ true) where
    episodes_ok :
        get_user_episodes_for_podcast env.is_uuid user uuid start ≡ ok (episodes_of uuid, start)
    unfolding get_user_episodes_for_podcast
    episodes_ok = rw valid refl

    subscription_ok :
        or_no_rows (get_user_podcast env.is_uuid user uuid) start
        ≡ ok (find user uuid db.podcasts, start)
    unfolding get_user_podcast is_no_rows
    subscription_ok = ground arith

    abbrev answers : ByEpisode → Option UserPodcast → Tx SyncEpisodesResponse
    answers m sub = pure (episodes_response (map (episode_response m) (episodes_of uuid)) sub)

    abbrev subscribes : ByEpisode → Tx SyncEpisodesResponse
    subscribes m = or_no_rows (get_user_podcast env.is_uuid user uuid) >>= answers m

    body_ok :
        episodes_body env user (record { uuid = uuid; include_bookmarks = true }) start
        ≡ ok (
          episodes_response
              (map (episode_response bookmarks_of) (episodes_of uuid))
              (find user uuid db.podcasts),
          start,
        )
    unfolding episodes_body
    body_ok =
        let (m, e, h) = bookmarks_ok (episodes_of uuid) in
        >>=-ok (get_user_episodes_for_podcast env.is_uuid user uuid)
          (λ eps. bookmarks_if user (true && not (is_empty eps)) eps >>= λ g.
            or_no_rows (get_user_podcast env.is_uuid user uuid) >>= λ sub.
            pure (episodes_response (map (episode_response g) eps) sub))
          start episodes_ok
        ∙ >>=-ok (bookmarks_if user (true && not (is_empty (episodes_of uuid))) (episodes_of uuid))
            subscribes start e
        ∙ >>=-ok (or_no_rows (get_user_podcast env.is_uuid user uuid)) (answers m) start
            subscription_ok
        ∙ ap (λ l. ok (episodes_response l (find user uuid db.podcasts), start))
            (responses_eq m (episodes_of uuid) h)

    -- The answer with bookmarks is the join of the user's episodes of the podcast with the user's
    -- bookmarks, each under its own episode, without the deleted ones, and with the settings of
    -- the subscription if there is one. The uuid must be a uuid, and not empty.
    pub podcast_episodes-joined :
        str_eq uuid "" ≡ false
        → podcast_episodes env user (record { uuid = uuid; include_bookmarks = true }) db
          ≡ ok (
              episodes_response
                (map (episode_response bookmarks_of) (episodes_of uuid))
                (find user uuid db.podcasts))
    unfolding podcast_episodes
    podcast_episodes-joined ne = rw ne (
        ap {A = Ran SyncEpisodesResponse}
          (λ r. elim r [
            | ok (a, s) ↦ ok a
            | err (e, s) ↦
                err (
                  E (
                    Arg.op "syncsvc/Engine.PodcastEpisodes" ∷ Arg.kind database ∷ Arg.cause e ∷ []))
          ])
          body_ok)
