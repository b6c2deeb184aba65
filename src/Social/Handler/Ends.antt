-- ===== src/Social/Handler/Ends.antt =====
-- What holds of the store when a handler has answered, step by step.
use podcast_backend.Prelude.{Bool, true, false, Option, none, some, ◌≡◌, refl}
use podcast_backend.Social.Handler.{
  Store, Step, Handler, Reply, reply, and_then, next, or_answer, refuse_if,
}

module _ {A B : Type 0} (P : Store → Type 0) where
  pub or_answer-Ends :
      (o : Option A) (r : Reply) (f : A → Handler B) (s : Store)
      → P s
      → ((a : A) → o ≡ some a → P (f a s).1)
      → P (and_then (or_answer o r s) f).1
  unfolding and_then or_answer
  or_answer-Ends none r f s p k = p
  or_answer-Ends (some a) r f s p k = k a refl

module _ {B : Type 0} (P : Store → Type 0) where
  pub refuse_if-Ends :
      (b : Bool) (r : Reply) (f : Unit → Handler B) (s : Store)
      → P s
      → (b ≡ false → P (f tt s).1)
      → P (and_then (refuse_if b r s) f).1
  unfolding and_then refuse_if
  refuse_if-Ends true r f s p k = p
  refuse_if-Ends false r f s p k = k refl

module _ {A B : Type 0} (P : Store → Type 0) where
  pub next-Ends :
      (a : A) (f : A → Handler B) (s : Store) → P (f a s).1 → P (and_then (next a, s) f).1
  unfolding and_then
  next-Ends a f s p = p

module _ {A B : Type 0} (P : Store → Type 0) where
  pub reply-Ends : (r : Reply) (f : A → Handler B) (s : Store) → P s → P (and_then (reply r, s) f).1
  unfolding and_then
  reply-Ends r f s p = p

module _ {A B C : Type 0} (P : Store → Type 0) where
  pub nested-Ends :
      (r : Step A × Store) (f : A → Handler B) (g : B → Handler C)
      → P (and_then r (λ a s. and_then (f a s) g)).1
      → P (and_then (and_then r f) g).1
  unfolding and_then
  nested-Ends (reply x, s) f g p = p
  nested-Ends (next a, s) f g p = p
