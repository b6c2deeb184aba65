-- ===== src/Sync/Episode/Laws.antt =====
-- What one playback record does to the stored row, and two in either order.
use podcast_backend.Prelude.{
  ℤ, ◌<ℤ◌, String, true, Option, none, some, str_eq, ◌≡◌, refl, ◌⊎◌, arith,
}
use podcast_backend.Wire.Sync.{SyncUserEpisode}
use podcast_backend.Sync.Episode.{newer, newer_stamp}

-- Two stamps, where both are given, are different.
abbrev pub Apart : Option ℤ → Option ℤ → Type 0
Apart none _ = Unit
Apart (some a) none = Unit
Apart (some a) (some b) = (a <ℤ b) ⊎ (b <ℤ a)

module _ {A : Type 0} where
  pub newer_comm :
      (v w : Option A) (s t : Option ℤ) (o : A) (os : ℤ)
      → Apart s t
      → newer v s (newer w t o os) (newer_stamp w t os)
        ≡ newer w t (newer v s o os) (newer_stamp v s os)
  unfolding newer newer_stamp
  newer_comm none w s t o os h = refl
  newer_comm (some a) none s t o os h = refl
  newer_comm (some a) (some b) none t o os h = refl
  newer_comm (some a) (some b) (some s) none o os h = refl
  newer_comm (some a) (some b) (some s) (some t) o os h = ground arith

  pub newer_stamp_comm :
      (v w : Option A) (s t : Option ℤ) (os : ℤ)
      → Apart s t
      → newer_stamp v s (newer_stamp w t os) ≡ newer_stamp w t (newer_stamp v s os)
  unfolding newer newer_stamp
  newer_stamp_comm none w s t os h = refl
  newer_stamp_comm (some a) none s t os h = refl
  newer_stamp_comm (some a) (some b) none t os h = refl
  newer_stamp_comm (some a) (some b) (some s) none os h = refl
  newer_stamp_comm (some a) (some b) (some s) (some t) os h = ground arith

-- A record that names no podcast leaves the row's; of two that name one, the later wins. So two
-- records are in either order the same if one of them names none, or both name the same.
abbrev pub Agree : String → String → Type 0
Agree a b = (a ≡ b) ⊎ ((str_eq a "" ≡ true) ⊎ (str_eq b "" ≡ true))

-- The podcasts of two records agree, and their six stamps are pairwise different.
pub record ApartRecords (a b : SyncUserEpisode) : Type 0 where
  pub podcast : Agree a.podcast_uuid b.podcast_uuid
  pub playing_status : Apart a.playing_status_modified b.playing_status_modified
  pub played_up_to : Apart a.played_up_to_modified b.played_up_to_modified
  pub starred : Apart a.starred_modified b.starred_modified
  pub is_deleted : Apart a.is_deleted_modified b.is_deleted_modified
  pub duration : Apart a.duration_modified b.duration_modified
  pub deselected_chapters : Apart a.deselected_chapters_modified b.deselected_chapters_modified
