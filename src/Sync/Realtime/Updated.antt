-- ===== src/Sync/Realtime/Updated.antt =====
-- The row that UpdateEpisode writes, field by field (syncsvc/updates.go).
use podcast_backend.Prelude.{
  ℕ, ℤ, pos, eq_ℤ, String, false, Option, none, some, str_eq, or_else, ◌≡◌, refl, ap, sym, subst,
  ◌∙◌, if◌then◌else◌, Bool-cases, inl, inr,
}
use podcast_backend.Wire.Sync.{UpdateEpisodeRequest}
use podcast_backend.Db.Rows.{UserEpisode, episode_key}
use podcast_backend.Db.Table.{find}
use podcast_backend.Db.Table.Laws.{find-at, at-eq}
use podcast_backend.Sync.Episode.{new_episode, podcast_after}
use podcast_backend.Sync.Realtime.{set_position, set_status, set_duration, update_params}

-- A field and its stamp: the value that is given and the token, or both as they were.
abbrev pub Sets : Option ℤ → ℤ → ℤ → ℤ → ℤ → ℤ → Type 0
Sets none token old old_stamp new new_stamp = (new ≡ old) × (new_stamp ≡ old_stamp)
Sets (some v) token old old_stamp new new_stamp = (new ≡ v) × (new_stamp ≡ token)

-- Status and duration are given where they are not zero.
abbrev pub nonzero : ℤ → Option ℤ
nonzero v = if eq_ℤ v (pos 0) then none else some v

pub record Updated (token : ℤ) (req : UpdateEpisodeRequest) (old new : UserEpisode) : Type 0 where
  pub podcast : new.podcast_uuid ≡ podcast_after req.podcast old.podcast_uuid
  pub stamped : new.modified_at ≡ token
  pub position :
      Sets req.position token old.played_up_to old.played_up_to_modified new.played_up_to
        new.played_up_to_modified
  pub status :
      Sets
        (nonzero req.status)
        token
        old.playing_status
        old.playing_status_modified
        new.playing_status
        new.playing_status_modified
  pub duration :
      Sets
        (nonzero req.duration)
        token
        old.duration
        old.duration_modified
        new.duration
        new.duration_modified
  pub kept :
      record new {
        podcast_uuid = old.podcast_uuid;
        modified_at = old.modified_at;
        played_up_to = old.played_up_to;
        played_up_to_modified = old.played_up_to_modified;
        playing_status = old.playing_status;
        playing_status_modified = old.playing_status_modified;
        duration = old.duration;
        duration_modified = old.duration_modified;
      }
      ≡ old

-- The row of a lookup, or the blank one, is of the episode.
pub row_uuid :
    (user : ℕ) (uuid : String) (found : Option UserEpisode) (rows : _)
    → find user uuid rows ≡ found
    → (or_else found (new_episode user uuid)).episode_uuid ≡ uuid
row_uuid user uuid none rows e = refl
row_uuid user uuid (some r) rows e = (at-eq user uuid r (find-at user uuid r rows e)).1

abbrev pub updated : ℤ → UpdateEpisodeRequest → UserEpisode → UserEpisode
updated token req old = set_duration token req.duration (
    set_status token req.status (
      set_position token req.position (record old {
        modified_at = token;
        podcast_uuid = podcast_after req.podcast old.podcast_uuid;
      })))

pub update_params-updated :
    (token : ℤ) (req : UpdateEpisodeRequest) (old : UserEpisode)
    → str_eq (podcast_after req.podcast old.podcast_uuid) "" ≡ false
    → update_params token req old ≡ some (updated token req old)
unfolding update_params
update_params-updated token req old h = rw h refl

-- The stamp of a field that is given.
abbrev stamp : Option ℤ → ℤ → ℤ → ℤ
stamp none token old = old
stamp (some v) token old = token

Sets-or_else :
    (o : Option ℤ) (token old old_stamp : ℤ)
    → Sets o token old old_stamp (or_else o old) (stamp o token old_stamp)
Sets-or_else none token old old_stamp = (refl, refl)
Sets-or_else (some v) token old old_stamp = (refl, refl)

module _ (token : ℤ) where
  set_position-eq :
      (p : Option ℤ) (row : UserEpisode)
      → set_position token p row ≡ record row {
        played_up_to = or_else p row.played_up_to;
        played_up_to_modified = stamp p token row.played_up_to_modified;
      }
  unfolding set_position
  set_position-eq none row = refl
  set_position-eq (some v) row = refl

  set_status-eq :
      (v : ℤ) (row : UserEpisode)
      → set_status token v row ≡ record row {
        playing_status = or_else (nonzero v) row.playing_status;
        playing_status_modified = stamp (nonzero v) token row.playing_status_modified;
      }
  unfolding set_status
  set_status-eq v row = elim (Bool-cases (eq_ℤ v (pos 0))) [ inl e ↦ rw e refl | inr e ↦ rw e refl ]

  set_duration-eq :
      (v : ℤ) (row : UserEpisode)
      → set_duration token v row ≡ record row {
        duration = or_else (nonzero v) row.duration;
        duration_modified = stamp (nonzero v) token row.duration_modified;
      }
  unfolding set_duration
  set_duration-eq v row = elim (Bool-cases (eq_ℤ v (pos 0))) [
    | inl e ↦ rw e refl
    | inr e ↦ rw e refl
  ]

  pub updated-Updated :
      (req : UpdateEpisodeRequest) (old : UserEpisode)
      → Updated token req old (updated token req old)
  updated-Updated req old =
      let flat =
        set_duration-eq req.duration _
        ∙ ap {A = UserEpisode} {B = UserEpisode}
            (λ r. record r {
              duration = or_else (nonzero req.duration) r.duration;
              duration_modified = stamp (nonzero req.duration) token r.duration_modified;
            })
            (set_status-eq req.status _
              ∙ ap {A = UserEpisode} {B = UserEpisode}
                  (λ r. record r {
                    playing_status = or_else (nonzero req.status) r.playing_status;
                    playing_status_modified =
                        stamp (nonzero req.status) token r.playing_status_modified;
                  })
                  (set_position-eq req.position _)) in
      subst (Updated token req old) (sym flat) (record {
        podcast = refl;
        stamped = refl;
        position = Sets-or_else req.position token old.played_up_to old.played_up_to_modified;
        status =
            Sets-or_else (nonzero req.status) token old.playing_status old.playing_status_modified;
        duration = Sets-or_else (nonzero req.duration) token old.duration old.duration_modified;
        kept = refl;
      })
