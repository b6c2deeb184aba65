-- ===== src/Sync/UpNext/Distinct.antt =====
-- Queues in which no episode stands twice.
use podcast_backend.Prelude.{
  ℕ, zero, suc, String, Bool, false, not, List, [], ◌∷◌, str_eq, eq_iff, eq_refl, ◌≡◌, refl, arith,
  All, select, select-All, All-select, All-map_pred, select_pass, Bool-cases, inl, inr,
}
use podcast_backend.Db.Rows.{UpNextItem}
use podcast_backend.Sync.UpNext.{remove_from_queue, insert_at}

abbrev pub Fresh : String → List UpNextItem → Type 0
Fresh uuid = All (λ (x : UpNextItem). str_eq x.episode_uuid uuid ≡ false)

abbrev pub Distinct : List UpNextItem → Type 0
Distinct [] = Unit
Distinct (x ∷ xs) = Fresh x.episode_uuid xs × Distinct xs

pub str_ne-sym : (a b : String) → str_eq a b ≡ false → str_eq b a ≡ false
str_ne-sym a b h = ground (arith, eq_iff a b, eq_iff b a)

pub select-Distinct :
    (p : UpNextItem → Bool) (q : List UpNextItem) → Distinct q → Distinct (select p q)
unfolding select
select-Distinct p [] h = tt
select-Distinct p (x ∷ q) h = elim (Bool-cases (p x)) [
  | inl e ↦ rw e (select-All _ p q h.0, select-Distinct p q h.1)
  | inr e ↦ rw e (select-Distinct p q h.1)
]

pub remove_from_queue-Fresh :
    (q : List UpNextItem) (uuid : String) → Fresh uuid (remove_from_queue q uuid)
unfolding remove_from_queue
remove_from_queue-Fresh q uuid =
    All-map_pred _ _ _ (λ x h. ground arith)
      (All-select (λ (item : UpNextItem). not (str_eq item.episode_uuid uuid)) q)

pub remove_from_queue-Distinct :
    (q : List UpNextItem) (uuid : String) → Distinct q → Distinct (remove_from_queue q uuid)
unfolding remove_from_queue
remove_from_queue-Distinct q uuid h = select-Distinct _ q h

insert_at-Fresh :
    (i : ℕ) (uuid : String) (item : UpNextItem) (q : List UpNextItem)
    → str_eq item.episode_uuid uuid ≡ false
    → Fresh uuid q
    → Fresh uuid (insert_at i item q)
unfolding insert_at
insert_at-Fresh zero uuid item q h f = (h, f)
insert_at-Fresh (suc i) uuid item [] h f = (h, tt)
insert_at-Fresh (suc i) uuid item (x ∷ q) h f = (f.0, insert_at-Fresh i uuid item q h f.1)

pub insert_at-Distinct :
    (i : ℕ) (item : UpNextItem) (q : List UpNextItem)
    → Fresh item.episode_uuid q
    → Distinct q
    → Distinct (insert_at i item q)
unfolding insert_at
insert_at-Distinct zero item q f d = (f, d)
insert_at-Distinct (suc i) item [] f d = (tt, tt)
insert_at-Distinct (suc i) item (x ∷ q) f d = (
  insert_at-Fresh i x.episode_uuid item q (str_ne-sym x.episode_uuid item.episode_uuid f.0) d.0,
  insert_at-Distinct i item q f.1 d.1,
)

-- Removing an episode again, or one that has just been put in.
pub remove_from_queue_idem :
    (q : List UpNextItem) (uuid : String)
    → remove_from_queue (remove_from_queue q uuid) uuid ≡ remove_from_queue q uuid
unfolding remove_from_queue
remove_from_queue_idem q uuid =
    select_pass _ _ (All-select (λ (item : UpNextItem). not (str_eq item.episode_uuid uuid)) q)

pub remove_from_queue-insert_at :
    (i : ℕ) (item : UpNextItem) (q : List UpNextItem)
    → remove_from_queue (insert_at i item q) item.episode_uuid
      ≡ remove_from_queue q item.episode_uuid
unfolding insert_at remove_from_queue select
remove_from_queue-insert_at zero item q = rw (eq_refl item.episode_uuid) refl
remove_from_queue-insert_at (suc i) item [] = rw (eq_refl item.episode_uuid) refl
remove_from_queue-insert_at (suc i) item (x ∷ q) = rw (remove_from_queue-insert_at i item q) refl
