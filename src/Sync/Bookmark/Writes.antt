-- ===== src/Sync/Bookmark/Writes.antt =====
-- A bookmark record writes at most one row of the user, under the token.
use podcast_backend.Prelude.{
  ℕ, ℤ, String, Option, none, some, ◌≡◌, refl, sym, ap, ◌∙◌, subst, arith, str_eq,
}
use podcast_backend.Errs.{ok}
use podcast_backend.Wire.Sync.{SyncUserBookmark}
use podcast_backend.Db.Table.{find}
use podcast_backend.Db.Table.Laws.{find-at, at-eq}
use podcast_backend.Db.Rows.{Bookmark, bookmark_key}
use podcast_backend.Db.Tx.{Session, or_no_rows}
use podcast_backend.Db.Library.{get_bookmark, upsert_bookmark}
use podcast_backend.Db.Library.Steps.{get_bookmark_step, upsert_bookmark_step}
use podcast_backend.Db.Wrote.{Wrote, Writes}
use podcast_backend.Db.Wrote.Rules.{pure-Writes, if-Writes, reads-Writes}
use podcast_backend.Db.Wrote.Upserts.{Wrote-bookmarks}
use podcast_backend.Sync.Env.{Env}
use podcast_backend.Sync.Bookmark.{apply_bookmark_record, merge_bookmark, stored_or_new}

module _ (env : Env) (clock : ℕ → ℤ) (user : ℕ) (token : ℤ) where
  abbrev Owned : Bookmark → Type 0
  Owned b = b.user_id ≡ user

  merge_bookmark-user :
      (rec : SyncUserBookmark) (b : Bookmark) → (merge_bookmark token rec b).user_id ≡ b.user_id
  unfolding merge_bookmark
  merge_bookmark-user rec b = ground arith

  merge_bookmark-token :
      (rec : SyncUserBookmark) (b : Bookmark) → (merge_bookmark token rec b).modified_at ≡ token
  unfolding merge_bookmark
  merge_bookmark-token rec b = ground arith

  upsert_bookmark-Writes :
      (row : Bookmark)
      → row.user_id ≡ user
      → row.modified_at ≡ token
      → Writes user token (upsert_bookmark env.is_uuid row)
  upsert_bookmark-Writes row eu em s a s' h =
      subst (λ z. Wrote user token s.db z.db) (sym (upsert_bookmark_step env.is_uuid s row h))
        (Wrote-bookmarks user token s.db row eu em)

  found_user :
      (s : Session) (uuid : String) (found : Option Bookmark)
      → found ≡ find user uuid s.db.bookmarks
      → (b : Bookmark) → found ≡ some b
      → Owned b
  found_user s uuid found e b eb =
      (at-eq user uuid b (find-at user uuid b s.db.bookmarks (sym e ∙ eb))).0

  found_read :
      (uuid : String) (s : Session) (found : Option Bookmark) (s' : Session)
      → or_no_rows (get_bookmark env.is_uuid user uuid) s ≡ ok (found, s')
      → (s'.db ≡ s.db) × ((b : Bookmark) → found ≡ some b → Owned b)
  found_read uuid s found s' h =
      let (es, ef) = get_bookmark_step env.is_uuid s user uuid h in
      (ap (λ z. z.db) es, found_user s uuid found ef)

  stored_or_new_read :
      (rec : SyncUserBookmark) (found : Option Bookmark)
      → ((b : Bookmark) → found ≡ some b → Owned b)
      → (s : Session) (b : Bookmark) (s' : Session)
      → stored_or_new env clock user rec found s ≡ ok (b, s')
      → (s'.db ≡ s.db) × Owned b
  unfolding stored_or_new
  stored_or_new_read rec (some b) owned s b' s' h = (ground arith, ground (arith, owned b refl))
  stored_or_new_read rec none owned s b' s' h = (ground arith, ground arith)

  pub apply_bookmark_record-Writes :
      (rec : SyncUserBookmark) → Writes user token (apply_bookmark_record env clock user token rec)
  unfolding apply_bookmark_record
  apply_bookmark_record-Writes rec =
      if-Writes user token (str_eq rec.bookmark_uuid "") _ _ (λ _. pure-Writes user token tt)
        λ _.
          reads-Writes user token (λ found. (b : Bookmark) → found ≡ some b → Owned b)
            (or_no_rows (get_bookmark env.is_uuid user rec.bookmark_uuid)) _
            (found_read rec.bookmark_uuid)
            λ found owned.
              reads-Writes user token Owned (stored_or_new env clock user rec found) _
                (stored_or_new_read rec found owned)
                λ b eu.
                  upsert_bookmark-Writes (merge_bookmark token rec b)
                    (merge_bookmark-user rec b ∙ eu) (merge_bookmark-token rec b)
