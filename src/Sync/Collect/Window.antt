-- ===== src/Sync/Collect/Window.antt =====
-- What an incremental read returns: exactly the rows changed in the window.
use podcast_backend.Prelude.{
  ℕ, ℤ, ◌<ℤ◌, ◌≤ℤ◌, true, List, ◌++◌, map, ◌≡◌, refl, sym, subst, inl, inr, arith, In, select,
  select-In, In-select, In-append, In-append_left, In-append_right, map-In, In-map,
}
use podcast_backend.Errs.{ok}
use podcast_backend.Wire.Sync.{Record}
use podcast_backend.Db.Rows.{UserPodcast, UserEpisode, Folder, Playlist, Bookmark}
use podcast_backend.Db.Tx.{Db, Session}
use podcast_backend.Db.Library.{changed_in}
use podcast_backend.Sync.Env.{Env}
use podcast_backend.Sync.Convert.{
  user_podcast_to_proto, user_episode_to_proto, folder_to_proto, playlist_to_proto,
  bookmark_to_proto,
}
use podcast_backend.Sync.Collect.{collect_changed_records}

-- The row is the user's, and its token lies in the window.
pub record InWindow (user : ℕ) (since up_to : ℤ) (user_id : ℕ) (modified_at : ℤ) : Type 0 where
  pub owned : user_id ≡ user
  pub after : since <ℤ modified_at
  pub until : modified_at ≤ℤ up_to

-- The records that a client is owed.
pub data Changed (env : Env) (user : ℕ) (since up_to : ℤ) (db : Db) : Record → Type 0 where
  folder :
      (row : Folder)
      → In row db.folders
      → InWindow user since up_to row.user_id row.modified_at
      → Changed env user since up_to db (Record.folder (folder_to_proto row))
  podcast :
      (row : UserPodcast)
      → In row db.podcasts
      → InWindow user since up_to row.user_id row.modified_at
      → Changed env user since up_to db (Record.podcast (user_podcast_to_proto env row))
  episode :
      (row : UserEpisode)
      → In row db.episodes
      → InWindow user since up_to row.user_id row.modified_at
      → Changed env user since up_to db (Record.episode (user_episode_to_proto row))
  playlist :
      (row : Playlist)
      → In row db.playlists
      → InWindow user since up_to row.user_id row.modified_at
      → Changed env user since up_to db (Record.playlist (playlist_to_proto env row))
  bookmark :
      (row : Bookmark)
      → In row db.bookmarks
      → InWindow user since up_to row.user_id row.modified_at
      → Changed env user since up_to db (Record.bookmark (bookmark_to_proto row))

module _ (user : ℕ) (since up_to : ℤ) where
  changed-InWindow :
      (u : ℕ) (m : ℤ) → changed_in user since up_to u m ≡ true → InWindow user since up_to u m
  changed-InWindow u m h = record {
    owned = ground arith;
    after = ground arith;
    until = ground arith;
  }

  InWindow-changed :
      (u : ℕ) (m : ℤ) → InWindow user since up_to u m → changed_in user since up_to u m ≡ true
  InWindow-changed u m w = let a = w.owned in let b = w.after in let c = w.until in ground arith

  -- One table's share of the response.
  pub part : {R : Type 0} → (R → ℕ) → (R → ℤ) → (R → Record) → List R → List Record
  part owner modified convert rows =
      map convert (select (λ r. changed_in user since up_to (owner r) (modified r)) rows)

  part-In :
      {R : Type 0} (owner : R → ℕ) (modified : R → ℤ) (convert : R → Record) (rows : List R)
      (row : R)
      → In row rows
      → InWindow user since up_to (owner row) (modified row)
      → In (convert row) (part owner modified convert rows)
  unfolding part
  part-In owner modified convert rows row i w =
      map-In convert row _ (select-In _ row rows i (InWindow-changed (owner row) (modified row) w))

  In-part :
      {R : Type 0} (owner : R → ℕ) (modified : R → ℤ) (convert : R → Record) (rows : List R)
      (r : Record)
      → In r (part owner modified convert rows)
      → (row : R) × In row rows
        × InWindow user since up_to (owner row) (modified row)
        × (r ≡ convert row)
  unfolding part
  In-part owner modified convert rows r h =
      let (row, i, e) = In-map convert r _ h in
      let (j, t) = In-select _ row rows i in
      (row, j, changed-InWindow (owner row) (modified row) t, e)

module _ (env : Env) (user : ℕ) (since up_to : ℤ) (db : Db) where
  abbrev folder_part : List Record
  folder_part =
      part user since up_to (λ (r : Folder). r.user_id) (λ r. r.modified_at)
        (λ row. Record.folder (folder_to_proto row)) db.folders

  abbrev podcast_part : List Record
  podcast_part =
      part user since up_to (λ (r : UserPodcast). r.user_id) (λ r. r.modified_at)
        (λ row. Record.podcast (user_podcast_to_proto env row)) db.podcasts

  abbrev episode_part : List Record
  episode_part =
      part user since up_to (λ (r : UserEpisode). r.user_id) (λ r. r.modified_at)
        (λ row. Record.episode (user_episode_to_proto row)) db.episodes

  abbrev playlist_part : List Record
  playlist_part =
      part user since up_to (λ (r : Playlist). r.user_id) (λ r. r.modified_at)
        (λ row. Record.playlist (playlist_to_proto env row)) db.playlists

  abbrev bookmark_part : List Record
  bookmark_part =
      part user since up_to (λ (r : Bookmark). r.user_id) (λ r. r.modified_at)
        (λ row. Record.bookmark (bookmark_to_proto row)) db.bookmarks

  abbrev pub changed_records : List Record
  changed_records =
      folder_part ++ (podcast_part ++ (episode_part ++ (playlist_part ++ bookmark_part)))

  pub changed_records-In : (r : Record) → Changed env user since up_to db r → In r changed_records
  changed_records-In _ (Changed.folder row i w) =
      In-append_left _ folder_part
        (podcast_part ++ (episode_part ++ (playlist_part ++ bookmark_part)))
        (part-In user since up_to (λ (r : Folder). r.user_id) (λ r. r.modified_at)
          (λ row. Record.folder (folder_to_proto row)) db.folders row i w)
  changed_records-In _ (Changed.podcast row i w) = In-append_right _ folder_part _ (
      In-append_left _ podcast_part (episode_part ++ (playlist_part ++ bookmark_part)) (
        part-In user since up_to (λ (r : UserPodcast). r.user_id) (λ r. r.modified_at)
          (λ row. Record.podcast (user_podcast_to_proto env row)) db.podcasts row i w))
  changed_records-In _ (Changed.episode row i w) = In-append_right _ folder_part _ (
      In-append_right _ podcast_part _ (
        In-append_left _ episode_part (playlist_part ++ bookmark_part) (
          part-In user since up_to (λ (r : UserEpisode). r.user_id) (λ r. r.modified_at)
            (λ row. Record.episode (user_episode_to_proto row)) db.episodes row i w)))
  changed_records-In _ (Changed.playlist row i w) = In-append_right _ folder_part _ (
      In-append_right _ podcast_part _ (
        In-append_right _ episode_part _ (
          In-append_left _ playlist_part bookmark_part (
            part-In user since up_to (λ (r : Playlist). r.user_id) (λ r. r.modified_at)
              (λ row. Record.playlist (playlist_to_proto env row)) db.playlists row i w))))
  changed_records-In _ (Changed.bookmark row i w) = In-append_right _ folder_part _ (
      In-append_right _ podcast_part _ (
        In-append_right _ episode_part _ (
          In-append_right _ playlist_part _ (
            part-In user since up_to (λ (r : Bookmark). r.user_id) (λ r. r.modified_at)
              (λ row. Record.bookmark (bookmark_to_proto row)) db.bookmarks row i w))))

  pub In-changed_records : (r : Record) → In r changed_records → Changed env user since up_to db r
  In-changed_records r h = elim (In-append r folder_part _ h) [
    | inl k ↦
        let (row, i, w, q) =
          In-part user since up_to (λ (r : Folder). r.user_id) (λ r. r.modified_at)
            (λ row. Record.folder (folder_to_proto row)) db.folders r k in
        subst (Changed env user since up_to db) (sym q) (Changed.folder row i w)
    | inr h0 ↦ elim (In-append r podcast_part _ h0) [
      | inl k ↦
          let (row, i, w, q) =
            In-part user since up_to (λ (r : UserPodcast). r.user_id) (λ r. r.modified_at)
              (λ row. Record.podcast (user_podcast_to_proto env row)) db.podcasts r k in
          subst (Changed env user since up_to db) (sym q) (Changed.podcast row i w)
      | inr h1 ↦ elim (In-append r episode_part _ h1) [
        | inl k ↦
            let (row, i, w, q) =
              In-part user since up_to (λ (r : UserEpisode). r.user_id) (λ r. r.modified_at)
                (λ row. Record.episode (user_episode_to_proto row)) db.episodes r k in
            subst (Changed env user since up_to db) (sym q) (Changed.episode row i w)
        | inr h2 ↦ elim (In-append r playlist_part _ h2) [
          | inl k ↦
              let (row, i, w, q) =
                In-part user since up_to (λ (r : Playlist). r.user_id) (λ r. r.modified_at)
                  (λ row. Record.playlist (playlist_to_proto env row)) db.playlists r k in
              subst (Changed env user since up_to db) (sym q) (Changed.playlist row i w)
          | inr k ↦
              let (row, i, w, q) =
                In-part user since up_to (λ (r : Bookmark). r.user_id) (λ r. r.modified_at)
                  (λ row. Record.bookmark (bookmark_to_proto row)) db.bookmarks r k in
              subst (Changed env user since up_to db) (sym q) (Changed.bookmark row i w)
        ]
      ]
    ]
  ]

  -- The read changes nothing and returns the records of the five tables.
  pub collect-eq :
      (s : Session)
      → s.db ≡ db
      → collect_changed_records env user since up_to s ≡ ok (changed_records, s)
  unfolding collect_changed_records part
  collect-eq s e = rw (← e) refl

-- A read of a window returns a record exactly if it is the conversion of a row of the user whose
-- token is after the lower and not after the upper end, whatever the kind of the row.
pub collect_exact :
    (env : Env) (user : ℕ) (since up_to : ℤ) (s : Session)
    → (records : List Record) × (collect_changed_records env user since up_to s ≡ ok (records, s))
      × ((r : Record) → In r records → Changed env user since up_to s.db r)
      × ((r : Record) → Changed env user since up_to s.db r → In r records)
collect_exact env user since up_to s = (
  changed_records env user since up_to s.db,
  collect-eq env user since up_to s.db s refl,
  In-changed_records env user since up_to s.db,
  changed_records-In env user since up_to s.db,
)
