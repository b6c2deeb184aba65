-- ===== src/Db/Wrote/Rules.antt =====
-- Writes, one rule for each way to build a query.
use podcast_backend.Prelude.{ℕ, ℤ, Bool, true, false, ◌≡◌, refl, sym, subst, arith, if◌then◌else◌}
use podcast_backend.Errs.{Result, ok, err}
use podcast_backend.Db.Tx.{Db, Session, Tx, pure, lift, ◌>>=◌}
use podcast_backend.Db.Tx.Laws.{>>=-eq-ok}
use podcast_backend.Db.Wrote.{Wrote, Wrote-refl, Wrote-trans, Writes}

module _ (user : ℕ) (token : ℤ) where
  pub same_db-Wrote : (d d' : Db) → d' ≡ d → Wrote user token d d'
  same_db-Wrote d d' e = subst (Wrote user token d) (sym e) (Wrote-refl user token d)

  pub pure-Writes : {A : Type 0} (b : A) → Writes user token (pure b)
  pure-Writes b s a s' h = same_db-Wrote s.db s'.db (ground arith)

  pub lift-Writes : {A : Type 0} (r : Result A) → Writes user token (lift r)
  lift-Writes (ok b) s a s' h = same_db-Wrote s.db s'.db (ground arith)
  lift-Writes (err e) s a s' h = absurd (ground arith)

  -- A query that leaves the tables alone.
  pub unchanged-Writes :
      {A : Type 0} (m : Tx A)
      → ((s : Session) (a : A) (s' : Session) → m s ≡ ok (a, s') → s'.db ≡ s.db)
      → Writes user token m
  unchanged-Writes m h s a s' e = same_db-Wrote s.db s'.db (h s a s' e)

  pub bind-Writes :
      {A B : Type 0} (m : Tx A) (f : A → Tx B)
      → Writes user token m
      → ((a : A) → Writes user token (f a))
      → Writes user token (m >>= f)
  bind-Writes m f wm wf s b s'' h =
      let (a, s', em, ef) = >>=-eq-ok m f s h in
      Wrote-trans user token s.db s'.db s''.db (wm s a s' em) (wf a s' b s'' ef)

  pub if-Writes :
      {A : Type 0} (b : Bool) (m n : Tx A)
      → (b ≡ true → Writes user token m)
      → (b ≡ false → Writes user token n)
      → Writes user token (if b then m else n)
  if-Writes true m n wm wn = wm refl
  if-Writes false m n wm wn = wn refl

  -- A read that leaves the tables alone and returns a value with a property, then the rest.
  pub reads-Writes :
      {A B : Type 0} (P : A → Type 0) (m : Tx A) (f : A → Tx B)
      → ((s : Session) (a : A) (s' : Session) → m s ≡ ok (a, s') → (s'.db ≡ s.db) × P a)
      → ((a : A) → P a → Writes user token (f a))
      → Writes user token (m >>= f)
  reads-Writes P m f hm wf s b s'' h =
      let (a, s', em, ef) = >>=-eq-ok m f s h in
      let (es, p) = hm s a s' em in subst (λ d. Wrote user token d s''.db) es (wf a p s' b s'' ef)
