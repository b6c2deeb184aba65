-- ===== src/Sync/UpNext/Rewrite.antt =====
-- Writing the queue out and reading it back.
use podcast_backend.Prelude.{
  ℕ, ℤ, suc, String, Bool, ◌&&◌, true, false, not, none, List, [], ◌∷◌, ◌++◌, ◌==◌, ltb, ◌≡◌, refl,
  sym, ◌∙◌, ap, arith, All, select, insert_sorted, sort_by, Bool-cases, inl, inr,
}
use podcast_backend.Errs.{ok}
use podcast_backend.Db.Table.{find}
use podcast_backend.Db.Rows.{UpNextItem, up_next_key}
use podcast_backend.Db.Tx.{Session}
use podcast_backend.Db.Tx.Laws.{>>=-ok}
use podcast_backend.Db.Queue.{
  user_queue, by_position, delete_all_up_next_items, insert_up_next_item, fine_texts,
}
use podcast_backend.Sync.Env.{Env}
use podcast_backend.Sync.UpNext.{insert_items, rewrite_up_next_queue}
use podcast_backend.Sync.UpNext.Distinct.{Distinct, Fresh, str_ne-sym}

-- What the database accepts as a row and as a queue: the episode is a uuid, the texts hold no NUL,
-- and no episode stands in it twice.
abbrev pub storable : Env → UpNextItem → Bool
storable env x = env.is_uuid x.episode_uuid && fine_texts x

abbrev pub Accepted : Env → List UpNextItem → Type 0
Accepted env q = All (λ (x : UpNextItem). storable env x ≡ true) q × Distinct q

-- The rows of a queue: its items in order, numbered from i.
unfoldable pub number : ℕ → ℕ → List UpNextItem → List UpNextItem
number user i [] = []
number user i (x ∷ xs) = record x { user_id = user; position = i } ∷ number user (suc i) xs

unfoldable insert_rows : ℕ → ℕ → List UpNextItem → List UpNextItem → List UpNextItem
insert_rows user i [] t = t
insert_rows user i (x ∷ xs) t =
    insert_rows user (suc i) xs (record x { user_id = user; position = i } ∷ t)

abbrev pub with_up_next : List UpNextItem → Session → Session
with_up_next t s = record s { db = record s.db { up_next = t } }

abbrev Before : ℕ → List UpNextItem → Type 0
Before i = All (λ (y : UpNextItem). ltb y.position i ≡ true)

==_refl : (n : ℕ) → (n == n) ≡ true
==_refl n = ground arith

insert_sorted-last :
    (x : UpNextItem) (done : List UpNextItem)
    → Before x.position done
    → insert_sorted by_position x done ≡ done ++ x ∷ []
unfolding insert_sorted
insert_sorted-last x [] b = refl
insert_sorted-last x (y ∷ done) b = rw (b.0, insert_sorted-last x done b.1) refl

append_assoc : (xs ys zs : List UpNextItem) → (xs ++ ys) ++ zs ≡ xs ++ (ys ++ zs)
append_assoc [] ys zs = refl
append_assoc (x ∷ xs) ys zs = ap (λ l. x ∷ l) (append_assoc xs ys zs)

append_nil : (xs : List UpNextItem) → xs ++ [] ≡ xs
append_nil [] = refl
append_nil (x ∷ xs) = ap (λ l. x ∷ l) (append_nil xs)

Before-snoc :
    (x : UpNextItem) (i : ℕ) (done : List UpNextItem)
    → x.position ≡ i
    → Before i done
    → Before (suc i) (done ++ x ∷ [])
Before-snoc x i [] e b = (ground arith, tt)
Before-snoc x i (y ∷ done) e b = (let p = b.0 in ground arith, Before-snoc x i done e b.1)

module _ (user : ℕ) where
  abbrev pub Absent : List UpNextItem → List UpNextItem → Type 0
  Absent t = All (λ (y : UpNextItem). find user y.episode_uuid t ≡ none)

  Absent-cons :
      (x : UpNextItem) (t items : List UpNextItem)
      → Fresh x.episode_uuid items
      → Absent t items
      → Absent (x ∷ t) items
  unfolding find
  Absent-cons x t [] f a = tt
  Absent-cons x t (y ∷ items) f a = (
    let p = str_ne-sym y.episode_uuid x.episode_uuid f.0 in let q = a.0 in ground arith,
    Absent-cons x t items f.1 a.1,
  )

  user_queue-cons :
      (x : UpNextItem) (t done : List UpNextItem)
      → (x.user_id == user) ≡ true
      → user_queue user t ≡ done
      → Before x.position done
      → user_queue user (x ∷ t) ≡ done ++ x ∷ []
  unfolding user_queue select sort_by
  user_queue-cons x t done e q b = rw (e, q) (insert_sorted-last x done b)

  insert_rows-queue :
      (i : ℕ) (items t done : List UpNextItem)
      → user_queue user t ≡ done
      → Before i done
      → user_queue user (insert_rows user i items t) ≡ done ++ number user i items
  unfolding insert_rows number
  insert_rows-queue i [] t done q b = q ∙ sym (append_nil done)
  insert_rows-queue i (x ∷ items) t done q b =
      let row = record x { user_id = user; position = i } in
      insert_rows-queue (suc i) items (row ∷ t) (done ++ row ∷ [])
        (user_queue-cons row t done (==_refl user) q b) (Before-snoc row i done refl b)
      ∙ append_assoc done (row ∷ []) (number user (suc i) items)

  insert_rows-others :
      (other : ℕ) (i : ℕ) (items t : List UpNextItem)
      → (user == other) ≡ false
      → user_queue other (insert_rows user i items t) ≡ user_queue other t
  unfolding insert_rows user_queue select
  insert_rows-others other i [] t h = refl
  insert_rows-others other i (x ∷ items) t h =
      insert_rows-others other (suc i) items (record x { user_id = user; position = i } ∷ t) h
      ∙ rw h refl

  -- The rows of a user once they are deleted.
  cleared-find :
      (u : String) (t : List UpNextItem)
      → find user u (select (λ (r : UpNextItem). not (r.user_id == user)) t) ≡ none
  unfolding find select
  cleared-find u [] = refl
  cleared-find u (x ∷ t) = elim (Bool-cases (x.user_id == user)) [
    | inl e ↦ rw e (cleared-find u t)
    | inr e ↦ rw (e, e) (cleared-find u t)
  ]

  cleared-Absent :
      (t items : List UpNextItem)
      → Absent (select (λ (r : UpNextItem). not (r.user_id == user)) t) items
  cleared-Absent t [] = tt
  cleared-Absent t (y ∷ items) = (cleared-find y.episode_uuid t, cleared-Absent t items)

  cleared-select :
      (t : List UpNextItem)
      → select
          (λ (r : UpNextItem). r.user_id == user)
          (select (λ (r : UpNextItem). not (r.user_id == user)) t)
        ≡ []
  unfolding select
  cleared-select [] = refl
  cleared-select (x ∷ t) = elim (Bool-cases (x.user_id == user)) [
    | inl e ↦ rw e (cleared-select t)
    | inr e ↦ rw (e, e) (cleared-select t)
  ]

  others-select :
      (other : ℕ) (t : List UpNextItem)
      → (user == other) ≡ false
      → select
          (λ (r : UpNextItem). r.user_id == other)
          (select (λ (r : UpNextItem). not (r.user_id == user)) t)
        ≡ select (λ (r : UpNextItem). r.user_id == other) t
  unfolding select
  others-select other [] h = refl
  others-select other (x ∷ t) h = ground (arith, others-select other t h)

  module _ (env : Env) (clock : ℕ → ℤ) where
    insert_up_next_item-row :
        (row : UpNextItem) (s : Session)
        → storable env row ≡ true
        → find row.user_id row.episode_uuid s.db.up_next ≡ none
        → insert_up_next_item env.is_uuid row s ≡ ok (tt, with_up_next (row ∷ s.db.up_next) s)
    unfolding insert_up_next_item
    insert_up_next_item-row row s v a = ground arith

    insert_items-rows :
        (i : ℕ) (items : List UpNextItem) (s : Session)
        → All (λ (x : UpNextItem). storable env x ≡ true) items
        → Distinct items
        → Absent s.db.up_next items
        → insert_items env clock user i items s
          ≡ ok (tt, with_up_next (insert_rows user i items s.db.up_next) s)
    unfolding insert_items insert_rows
    insert_items-rows i [] s v d a = refl
    insert_items-rows i (x ∷ items) s v d a =
        let row = record x { user_id = user; position = i } in
        >>=-ok (insert_up_next_item env.is_uuid row)
          (λ _. insert_items env clock user (suc i) items) s (insert_up_next_item-row row s v.0 a.0)
        ∙ (insert_items-rows (suc i) items (with_up_next (row ∷ s.db.up_next) s) v.1 d.1
            (Absent-cons row s.db.up_next items d.0 a.1))

    abbrev pub Written : List UpNextItem → Session → List UpNextItem → Type 0
    Written queue s t =
        (rewrite_up_next_queue env clock user queue s ≡ ok (tt, with_up_next t s))
        × (user_queue user t ≡ number user 0 queue)
        × ((other : ℕ)
            → (user == other) ≡ false
            → user_queue other t ≡ user_queue other s.db.up_next)

    -- A queue that the database accepts is written, reads back in order, and leaves the
    -- queues of the other users alone.
    pub rewrite_up_next_queue-Written :
        (queue : List UpNextItem) (s : Session)
        → Accepted env queue
        → (t : List UpNextItem) × Written queue s t
    unfolding rewrite_up_next_queue delete_all_up_next_items user_queue sort_by
    rewrite_up_next_queue-Written queue s (v, d) =
        let t0 = select (λ (r : UpNextItem). not (r.user_id == user)) s.db.up_next in
        (
          insert_rows user 0 queue t0,
          (
            insert_items-rows 0 queue (with_up_next t0 s) v d (cleared-Absent s.db.up_next queue),
            insert_rows-queue 0 queue t0 [] (ap (sort_by by_position) (cleared-select s.db.up_next))
                tt,
            λ other h.
                insert_rows-others other 0 queue t0 h
                ∙ ap (sort_by by_position) (others-select other s.db.up_next h),
          ),
        )
