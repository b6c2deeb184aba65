-- ===== src/Db/Tx/Laws.antt =====
-- Taking a chain of queries apart: what a step that returned has returned.
use podcast_backend.Prelude.{◌≡◌, refl, ap}
use podcast_backend.Errs.{ok, err}
use podcast_backend.Db.Tx.{Session, Ran, Tx, ◌>>=◌}

-- A bind that returned, at the result of its first part.
bind_at :
    {A B : Type 0} (r : Ran A) (f : A → Tx B) {b : B} {s'' : Session}
    → (elim r [ err e ↦ err e | ok (a, s') ↦ f a s' ]) ≡ ok (b, s'')
    → (a : A) × (s' : Session) × (r ≡ ok (a, s')) × (f a s' ≡ ok (b, s''))
bind_at (ok (a, s')) f h = (a, s', refl, h)
bind_at (err e) f h = cc

pub >>=-eq-ok :
    {A B : Type 0} (m : Tx A) (f : A → Tx B) (s : Session) {b : B} {s'' : Session}
    → (m >>= f) s ≡ ok (b, s'')
    → (a : A) × (s' : Session) × (m s ≡ ok (a, s')) × (f a s' ≡ ok (b, s''))
>>=-eq-ok m f s h = bind_at (m s) f h

-- A chain whose first query returns goes on with the rest.
pub >>=-ok :
    {A B : Type 0} (m : Tx A) (f : A → Tx B) (s : Session) {a : A} {s' : Session}
    → m s ≡ ok (a, s')
    → (m >>= f) s ≡ f a s'
>>=-ok m f s h = ap (λ r. elim r [ err e ↦ err e | ok (x, t) ↦ f x t ]) h
