-- ===== src/Sync/History/UniqueRows.antt =====
-- The history's primary key through the changes of a request.
use podcast_backend.Prelude.{
  ℕ, ℤ, pos, eq_ℤ, String, Bool, true, false, Option, none, some, List, [], ◌∷◌, str_eq, select,
  not, ◌&&◌, ◌==◌, leb_ℤ, ltb_ℤ, ◌≡◌, sym, subst, arith, if◌then◌else◌,
}
use podcast_backend.Errs.{ok}
use podcast_backend.Wire.Queue.{HistoryChange}
use podcast_backend.Db.Table.{Unique, find, put}
use podcast_backend.Db.Table.Laws.{put-Unique}
use podcast_backend.Db.Table.Names.{select-Unique}
use podcast_backend.Db.Rows.{History, history_key}
use podcast_backend.Db.Tx.{Db, Session, Tx, pure, write, now, uuid_param, ◌>>=◌}
use podcast_backend.Db.Tx.Laws.{>>=-eq-ok}
use podcast_backend.Db.Queue.{
  upsert_history, upsert_history_item, tombstone, tombstone_history_item, delete_history_before,
}
use podcast_backend.Sync.Env.{Env}
use podcast_backend.Sync.Token.{next_token}
use podcast_backend.Sync.History.{
  Action, add, delete, clear_all, other_action, action_of, stamp_or_token, apply_history_change,
  apply_history_changes, history_row,
}
use podcast_backend.Sync.Served.Rules.{Keeps}

-- A query that returns keeps the key.
abbrev pub KeepsUnique : {A : Type 0} → Tx A → Type 0
KeepsUnique {A} m =
    (s : Session) (a : A) (s' : Session)
    → m s ≡ ok (a, s')
    → Unique s.db.history
    → Unique s'.db.history

Keeps-KeepsUnique : {A : Type 0} (m : Tx A) → Keeps m → KeepsUnique m
Keeps-KeepsUnique m k s a s' h u = subst (λ d. Unique d.history) (sym (k s a s' h)) u

pure-KeepsUnique : {A : Type 0} (b : A) → KeepsUnique (pure b)
pure-KeepsUnique b = Keeps-KeepsUnique (pure b) λ s a s' h. ground arith

bind-KeepsUnique :
    {A B : Type 0} (m : Tx A) (f : A → Tx B)
    → KeepsUnique m
    → ((a : A) → KeepsUnique (f a))
    → KeepsUnique (m >>= f)
bind-KeepsUnique m f wm wf s b s'' h u =
    let (a, s', em, ef) = >>=-eq-ok m f s h in wf a s' b s'' ef (wm s a s' em u)

if-KeepsUnique :
    {A : Type 0} (b : Bool) (m n : Tx A)
    → KeepsUnique m
    → KeepsUnique n
    → KeepsUnique (if b then m else n)
if-KeepsUnique true m n wm wn = wm
if-KeepsUnique false m n wm wn = wn

write-KeepsUnique :
    (f : Db → List History)
    → ((d : Db) → Unique d.history → Unique (f d))
    → KeepsUnique (write λ d. record d { history = f d })
write-KeepsUnique f p s a s' h u =
    let e : s'.db.history ≡ f s.db = ground arith in
    subst (λ (l : List History). Unique l) (sym e) (p s.db u)

upsert_history-Unique :
    (o : Option History) (h : History) (rows : List History)
    → Unique rows
    → Unique (upsert_history o h rows)
unfolding upsert_history
upsert_history-Unique none h rows u = put-Unique h rows u
upsert_history-Unique (some old) h rows u = kept (ltb_ℤ old.modified_at h.modified_at)
  where
    kept : (b : Bool) → Unique (if b then put h rows else rows)
    kept true = put-Unique h rows u
    kept false = u

tombstone-Unique :
    (user : ℕ) (uuid : String) (t : ℤ) (o : Option History) (rows : List History)
    → Unique rows
    → Unique (tombstone user uuid t o rows)
unfolding tombstone
tombstone-Unique user uuid t none rows u = put-Unique _ rows u
tombstone-Unique user uuid t (some old) rows u = kept (ltb_ℤ old.modified_at t)
  where
    kept :
        (b : Bool)
        → Unique (if b then put (record old { modified_at = t; is_deleted = true }) rows else rows)
    kept true = put-Unique (record old { modified_at = t; is_deleted = true }) rows u
    kept false = u

module _ (env : Env) (clock : ℕ → ℤ) (user : ℕ) where
  uuid-KeepsUnique : (u : String) → KeepsUnique (uuid_param env.is_uuid u)
  uuid-KeepsUnique u = Keeps-KeepsUnique (uuid_param env.is_uuid u) λ s a s' h. ground arith

  stamp-KeepsUnique : (modified stamp : ℤ) → KeepsUnique (stamp_or_token env clock modified stamp)
  unfolding stamp_or_token
  stamp-KeepsUnique modified stamp =
      if-KeepsUnique (eq_ℤ stamp (pos 0)) _ _
        (bind-KeepsUnique (now clock) _ (Keeps-KeepsUnique (now clock) λ s a s' h. ground arith)
          (λ r. pure-KeepsUnique (next_token r modified)))
        (pure-KeepsUnique stamp)

  upsert_item-KeepsUnique : (h : History) → KeepsUnique (upsert_history_item env.is_uuid h)
  unfolding upsert_history_item
  upsert_item-KeepsUnique h = bind-KeepsUnique _ _ (uuid-KeepsUnique h.episode_uuid) λ _.
      write-KeepsUnique (λ d. upsert_history (find h.user_id h.episode_uuid d.history) h d.history)
        λ d u. upsert_history-Unique (find h.user_id h.episode_uuid d.history) h d.history u

  tombstone-KeepsUnique :
      (uuid : String) (t : ℤ) → KeepsUnique (tombstone_history_item env.is_uuid user uuid t)
  unfolding tombstone_history_item
  tombstone-KeepsUnique uuid t = bind-KeepsUnique _ _ (uuid-KeepsUnique uuid) λ _.
      write-KeepsUnique (λ d. tombstone user uuid t (find user uuid d.history) d.history)
        λ d u. tombstone-Unique user uuid t (find user uuid d.history) d.history u

  delete-KeepsUnique : (t : ℤ) → KeepsUnique (delete_history_before user t)
  unfolding delete_history_before
  delete-KeepsUnique t =
      write-KeepsUnique
        (λ d. select (λ (r : History). not (r.user_id == user && leb_ℤ r.modified_at t)) d.history)
        (λ d u.
          select-Unique (λ (r : History). not (r.user_id == user && leb_ℤ r.modified_at t))
            d.history u)

  change-KeepsUnique :
      (modified : ℤ) (a : Action) (cleared : ℤ) (c : HistoryChange)
      → KeepsUnique (apply_history_change env clock user modified a cleared c)
  unfolding apply_history_change
  change-KeepsUnique modified add cleared c =
      if-KeepsUnique (str_eq c.episode "") _ _ (pure-KeepsUnique cleared) (
        bind-KeepsUnique _ _ (upsert_item-KeepsUnique (history_row user c))
          (λ _. pure-KeepsUnique cleared))
  change-KeepsUnique modified delete cleared c =
      if-KeepsUnique (str_eq c.episode "") _ _ (pure-KeepsUnique cleared) (
        bind-KeepsUnique _ _ (stamp-KeepsUnique modified c.modified_at) λ t.
          bind-KeepsUnique _ _ (tombstone-KeepsUnique c.episode t) (λ _. pure-KeepsUnique cleared))
  change-KeepsUnique modified clear_all cleared c =
      bind-KeepsUnique _ _ (stamp-KeepsUnique modified c.modified_at)
        λ t. bind-KeepsUnique _ _ (delete-KeepsUnique t) (λ _. pure-KeepsUnique t)
  change-KeepsUnique modified other_action cleared c = pure-KeepsUnique cleared

  pub changes-KeepsUnique :
      (modified cleared : ℤ) (cs : List HistoryChange)
      → KeepsUnique (apply_history_changes env clock user modified cleared cs)
  unfolding apply_history_changes
  changes-KeepsUnique modified cleared [] = pure-KeepsUnique cleared
  changes-KeepsUnique modified cleared (c ∷ cs) =
      bind-KeepsUnique _ _ (change-KeepsUnique modified (action_of c.action) cleared c)
        λ z. changes-KeepsUnique modified z cs
