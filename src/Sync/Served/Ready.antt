-- ===== src/Sync/Served/Ready.antt =====
-- The invariant of the whole database: it holds of every user at once.
use podcast_backend.Prelude.{
  ℕ, suc, ℤ, pos, ◌+ℤ◌, ◌≤ℤ◌, ◌<ℤ◌, false, some, some-inj, List, ◌==◌, ==_iff, ◌≡◌, refl, sym, ◌∙◌,
  ap, subst, inl, inr, arith, Bool-cases,
}
use podcast_backend.Db.Table.{Keyed}
use podcast_backend.Db.Rows.{User, podcast_key, episode_key, folder_key, playlist_key, bookmark_key}
use podcast_backend.Db.Tx.{Db}
use podcast_backend.Db.Users.{find_user}
use podcast_backend.Db.Users.Laws.{KeepsIdentity, find_user-update_user, find_user-update_user_ne}
use podcast_backend.Db.Wrote.{Wrote, TableWrote}
use podcast_backend.Sync.Token.{next_token, increment, max_int64, next_token_least}
use podcast_backend.Sync.Invariant.{TableUpTo, LibraryUpTo, Wrote-LibraryUpTo}
use podcast_backend.Sync.Update.Parts.{with_token}
use podcast_backend.Sync.Served.{Served, Mild, Moved, SameLibrary}

-- Every user's library is within the user's token, and there is room for n more tokens.
pub record Ready (n : ℕ) (d : Db) : Type 0 where
  pub synced :
      (id : ℕ) (u : User) → find_user id d.users ≡ some u → LibraryUpTo id u.sync_last_modified d
  pub room :
      (id : ℕ) (u : User)
      → find_user id d.users ≡ some u
      → u.sync_last_modified +ℤ pos n ≤ℤ max_int64

SameLibrary-UpTo :
    (user : ℕ) (token : ℤ) (d d' : Db)
    → SameLibrary d d'
    → LibraryUpTo user token d
    → LibraryUpTo user token d'
SameLibrary-UpTo user token d d' s l = record {
  podcasts = subst (TableUpTo _ user token) (sym s.podcasts) l.podcasts;
  episodes = subst (TableUpTo _ user token) (sym s.episodes) l.episodes;
  folders = subst (TableUpTo _ user token) (sym s.folders) l.folders;
  playlists = subst (TableUpTo _ user token) (sym s.playlists) l.playlists;
  bookmarks = subst (TableUpTo _ user token) (sym s.bookmarks) l.bookmarks;
}

module _ {R : Type 0} ⦃k : Keyed R⦄ (modified : R → ℤ) (user other : ℕ) (token bound : ℤ) where
  -- Another user's rows are as before.
  TableWrote-other :
      (t t' : List R)
      → (user == other) ≡ false
      → TableWrote modified user token t t'
      → TableUpTo modified other bound t
      → TableUpTo modified other bound t'
  TableWrote-other t t' ne w b = record {
    bound =
        λ x i e. elim (w.from x i) [ inl j ↦ b.bound x j e | inr (eu, em) ↦ absurd (ground arith) ];
    unique = w.unique b.unique;
  }

Wrote-other :
    (user other : ℕ) (token bound : ℤ) (d d' : Db)
    → (user == other) ≡ false
    → Wrote user token d d'
    → LibraryUpTo other bound d
    → LibraryUpTo other bound d'
Wrote-other user other token bound d d' ne w l = record {
  podcasts = TableWrote-other _ user other token bound _ _ ne w.podcasts l.podcasts;
  episodes = TableWrote-other _ user other token bound _ _ ne w.episodes l.episodes;
  folders = TableWrote-other _ user other token bound _ _ ne w.folders l.folders;
  playlists = TableWrote-other _ user other token bound _ _ ne w.playlists l.playlists;
  bookmarks = TableWrote-other _ user other token bound _ _ ne w.bookmarks l.bookmarks;
}

pub room_pred : (n : ℕ) (t : ℤ) → t +ℤ pos (suc n) ≤ℤ max_int64 → t +ℤ pos n ≤ℤ max_int64
room_pred n t h = ground arith

room_lt : (n : ℕ) (t : ℤ) → t +ℤ pos (suc n) ≤ℤ max_int64 → t <ℤ max_int64
room_lt n t h = ground arith

next_token-room :
    (n : ℕ) (reading prev : ℤ)
    → prev +ℤ pos (suc n) ≤ℤ max_int64
    → reading +ℤ pos (suc n) ≤ℤ max_int64
    → next_token reading prev +ℤ pos n ≤ℤ max_int64
unfolding next_token increment
next_token-room n reading prev h r = ground arith

Mild-Ready : (n : ℕ) (d d' : Db) → Mild d d' → Ready (suc n) d → Ready n d'
Mild-Ready n d d' m r = record {
  synced = λ id u' h.
      let (u, f, e) = m.tokens id u' h in
      subst (λ t. LibraryUpTo id t d') e
        (SameLibrary-UpTo id u.sync_last_modified d d' m.library (r.synced id u f));
  room = λ id u' h.
      let (u, f, e) = m.tokens id u' h in
      subst (λ t. t +ℤ pos n ≤ℤ max_int64) e (room_pred n u.sync_last_modified (r.room id u f));
}

with_token_keeps : (t : ℤ) → KeepsIdentity (with_token t)
with_token_keeps t = record { same_id = λ u. refl; same_deleted = λ u. refl }

module _ (n : ℕ) (clock : ℕ → ℤ) (user : ℕ) (d d' : Db)
    (clocks : (i : ℕ) → clock i +ℤ pos (suc n) ≤ℤ max_int64) (r : Ready (suc n) d) where
  Moved-user :
      (m : Moved clock user d d') (u : User)
      → find_user user d'.users ≡ some u
      → LibraryUpTo user u.sync_last_modified d' × (u.sync_last_modified +ℤ pos n ≤ℤ max_int64)
  Moved-user m u h =
      let token = next_token (clock m.tick) m.old.sync_last_modified in
      let room = r.room user m.old m.found in
      let later =
        (next_token_least (clock m.tick) m.old.sync_last_modified
          (room_lt n m.old.sync_last_modified room)).0 in
      let now : find_user user d'.users ≡ some (with_token token m.old) =
        subst (λ us. find_user user us ≡ some (with_token token m.old)) (sym m.users)
          (find_user-update_user (with_token token) (with_token_keeps token) user d.users m.old
            m.found) in
      let same : token ≡ u.sync_last_modified =
        ap (λ v. v.sync_last_modified) (some-inj (sym now ∙ h)) in
      (
        subst (λ t. LibraryUpTo user t d') same
            (SameLibrary-UpTo user token m.batch d' m.library (
              Wrote-LibraryUpTo user m.old.sync_last_modified token d m.batch later m.wrote
                (r.synced user m.old m.found))),
        subst (λ t. t +ℤ pos n ≤ℤ max_int64) same
            (next_token-room n (clock m.tick) m.old.sync_last_modified room (clocks m.tick)),
      )

  Moved-other :
      (m : Moved clock user d d') (id : ℕ) (u : User)
      → (user == id) ≡ false
      → find_user id d'.users ≡ some u
      → LibraryUpTo id u.sync_last_modified d' × (u.sync_last_modified +ℤ pos n ≤ℤ max_int64)
  Moved-other m id u ne h =
      let token = next_token (clock m.tick) m.old.sync_last_modified in
      let before : find_user id d.users ≡ some u =
        sym (
          find_user-update_user_ne (with_token token) (with_token_keeps token) user id d.users
            (ground arith))
        ∙ ap (find_user id) (sym m.users)
        ∙ h in
      (
        SameLibrary-UpTo id u.sync_last_modified m.batch d' m.library (
            Wrote-other user id token u.sync_last_modified d m.batch ne m.wrote
              (r.synced id u before)),
        room_pred n u.sync_last_modified (r.room id u before),
      )

  Moved-each :
      (m : Moved clock user d d') (id : ℕ) (u : User)
      → find_user id d'.users ≡ some u
      → LibraryUpTo id u.sync_last_modified d' × (u.sync_last_modified +ℤ pos n ≤ℤ max_int64)
  Moved-each m id u h = elim (Bool-cases (user == id)) [
    | inl e ↦
        subst
          (λ i.
            find_user i d'.users ≡ some u
            → LibraryUpTo i u.sync_last_modified d' × (u.sync_last_modified +ℤ pos n ≤ℤ max_int64))
          ((==_iff user id).0 e) (Moved-user m u) h
    | inr e ↦ Moved-other m id u e h
  ]

  pub Served-Ready : Served clock user d d' → Ready n d'
  Served-Ready (inl m) = Mild-Ready n d d' m r
  Served-Ready (inr m) = record {
    synced = λ id u h. (Moved-each m id u h).0;
    room = λ id u h. (Moved-each m id u h).1;
  }
