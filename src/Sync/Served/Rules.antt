-- ===== src/Sync/Served/Rules.antt =====
-- Queries that leave the library and the sync tokens alone, one rule for each way to build one.
use podcast_backend.Prelude.{
  ℕ, ℤ, String, Bool, true, false, Option, none, some, List, [], ◌∷◌, ◌≡◌, refl, sym, subst, arith,
  if◌then◌else◌, ◌==◌, ◌&&◌, not, ◌∙◌, Bool-cases, inl, inr,
}
use podcast_backend.Errs.{ok}
use podcast_backend.Db.Rows.{User}
use podcast_backend.Db.Tx.{Db, Session, Tx, pure, read, write, one, uuid_param, now, ◌>>=◌}
use podcast_backend.Db.Tx.Laws.{>>=-eq-ok}
use podcast_backend.Db.Users.{find_user, update_user}
use podcast_backend.Sync.Served.{Mild, Mild-refl, Mild-trans}

-- The tables before and after a query that returns are related.
abbrev pub Serves : {A : Type 0} → (Db → Db → Type 0) → Tx A → Type 0
Serves {A} R m = (s : Session) (a : A) (s' : Session) → m s ≡ ok (a, s') → R s.db s'.db

abbrev pub Keeps : {A : Type 0} → Tx A → Type 0
Keeps {A} m = (s : Session) (a : A) (s' : Session) → m s ≡ ok (a, s') → s'.db ≡ s.db

abbrev pub Mildly : {A : Type 0} → Tx A → Type 0
Mildly = Serves Mild

pub Keeps-Mildly : {A : Type 0} (m : Tx A) → Keeps m → Mildly m
Keeps-Mildly m k s a s' h = subst (Mild s.db) (sym (k s a s' h)) (Mild-refl s.db)

pub pure-Mildly : {A : Type 0} (b : A) → Mildly (pure b)
pure-Mildly b = Keeps-Mildly (pure b) λ s a s' h. ground arith

pub read-Mildly : {A : Type 0} (f : Db → A) → Mildly (read f)
read-Mildly f = Keeps-Mildly (read f) λ s a s' h. ground arith

pub write-Mildly : (f : Db → Db) → ((d : Db) → Mild d (f d)) → Mildly (write f)
write-Mildly f m s a s' h =
    let e : s'.db ≡ f s.db = ground arith in subst (Mild s.db) (sym e) (m s.db)

one-Keeps : {A : Type 0} (o : Option A) → Keeps (one o)
one-Keeps none s a s' h = absurd (ground arith)
one-Keeps (some b) s a s' h = ground arith

pub one-Mildly : {A : Type 0} (o : Option A) → Mildly (one o)
one-Mildly o = Keeps-Mildly (one o) (one-Keeps o)

pub uuid_param-Mildly : (is_uuid : String → Bool) (u : String) → Mildly (uuid_param is_uuid u)
uuid_param-Mildly is_uuid u = Keeps-Mildly (uuid_param is_uuid u) λ s a s' h. ground arith

pub now-Mildly : (clock : ℕ → ℤ) → Mildly (now clock)
now-Mildly clock = Keeps-Mildly (now clock) λ s a s' h. ground arith

pub bind-Mildly :
    {A B : Type 0} (m : Tx A) (f : A → Tx B)
    → Mildly m
    → ((a : A) → Mildly (f a))
    → Mildly (m >>= f)
bind-Mildly m f wm wf s b s'' h =
    let (a, s', em, ef) = >>=-eq-ok m f s h in
    Mild-trans s.db s'.db s''.db (wm s a s' em) (wf a s' b s'' ef)

pub if-Mildly :
    {A : Type 0} (b : Bool) (m n : Tx A) → Mildly m → Mildly n → Mildly (if b then m else n)
if-Mildly true m n wm wn = wm
if-Mildly false m n wm wn = wn

-- A step that leaves the tables alone and returns a value with a property, then the rest.
pub keeps-Serves :
    {A B : Type 0} (R : Db → Db → Type 0) (P : Db → A → Type 0) (m : Tx A) (f : A → Tx B)
    → ((s : Session) (a : A) (s' : Session) → m s ≡ ok (a, s') → (s'.db ≡ s.db) × P s.db a)
    → ((a : A) (s : Session) (b : B) (s' : Session) → P s.db a → f a s ≡ ok (b, s') → R s.db s'.db)
    → Serves R (m >>= f)
keeps-Serves R P m f hm hf s b s'' h =
    let (a, s', em, ef) = >>=-eq-ok m f s h in
    let (same, p) = hm s a s' em in
    subst (λ d. R d s''.db) same (hf a s' b s'' (subst (λ d. P d a) (sym same) p) ef)

module _ (f : User → User) (user : ℕ) where
  -- An update that keeps the identity and the token of each user it may touch.
  pub record KeepsToken : Type 0 where
    pub same_id : (u : User) → (f u).id ≡ u.id
    pub same_deleted : (u : User) → (f u).deleted ≡ u.deleted
    pub same_token : (u : User) → (f u).sync_last_modified ≡ u.sync_last_modified

  back-head :
      (k : KeepsToken) (id : ℕ) (x : User) (us : List User) (u' : User)
      → (x.id == id && not x.deleted) ≡ true
      → find_user id (update_user user f (x ∷ us)) ≡ some u'
      → (find_user id (x ∷ us) ≡ some x) × (x.sync_last_modified ≡ u'.sync_last_modified)
  unfolding find_user update_user
  back-head k id x us u' e h =
      (ground arith, ground (arith, k.same_id x, k.same_deleted x, k.same_token x))

  back-tail :
      (k : KeepsToken) (id : ℕ) (x : User) (us : List User)
      → (x.id == id && not x.deleted) ≡ false
      → (find_user id (update_user user f (x ∷ us)) ≡ find_user id (update_user user f us))
        × (find_user id (x ∷ us) ≡ find_user id us)
  unfolding find_user update_user
  back-tail k id x us e = (ground (arith, k.same_id x, k.same_deleted x), ground arith)

  update_user-back :
      (k : KeepsToken) (id : ℕ) (us : List User) (u' : User)
      → find_user id (update_user user f us) ≡ some u'
      → (u : User) × (find_user id us ≡ some u) × (u.sync_last_modified ≡ u'.sync_last_modified)
  unfolding find_user update_user
  update_user-back k id [] u' h = absurd (ground arith)
  update_user-back k id (x ∷ us) u' h = elim (Bool-cases (x.id == id && not x.deleted)) [
    | inl e ↦ let (g, t) = back-head k id x us u' e h in (x, g, t)
    | inr e ↦
        let (after, before) = back-tail k id x us e in
        let (u, g, t) = update_user-back k id us u' (sym after ∙ h) in (u, before ∙ g, t)
  ]

  pub update_user-Mild :
      (k : KeepsToken) (d : Db) → Mild d (record d { users = update_user user f d.users })
  update_user-Mild k d = record {
    library = record {
      podcasts = refl;
      episodes = refl;
      folders = refl;
      playlists = refl;
      bookmarks = refl;
    };
    tokens = λ id u h. update_user-back k id d.users u h;
  }
