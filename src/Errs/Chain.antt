-- ===== src/Errs/Chain.antt =====
-- Chains of wrapped errors: what reaches the client, and the stack of operations.
use podcast_backend.Prelude.{
  String, List, [], ◌∷◌, ◌++◌, str_eq, if◌then◌else◌, ◌≡◌, refl, sym, ◌∙◌, ap, ◌⊎◌, inl, inr,
  Bool-cases,
}
use podcast_backend.Errs.{
  Error, wrapped, Kind, other, database, internal, Native, op_stack, collect_ops, reverse_onto,
}
use podcast_backend.Errs.Http.{http_error_response}

-- The kinds of a fault of the server, as against one of the request.
abbrev pub IsServerFault : Kind → Type 0
IsServerFault k = (k ≡ database) ⊎ (k ≡ internal) ⊎ (k ≡ other)

-- The response to a fault of the server depends on its kind alone: not on the cause or its text,
-- the operation, the parameter, the code or the realm. Its status is 500.
pub server_fault_masked :
    (text text' : Native → String) (k : Kind) (o o' p p' c c' r r' : String) (e e' : Error)
    → IsServerFault k
    → (http_error_response text (wrapped o k p c r e)
        ≡ http_error_response text' (wrapped o' k p' c' r' e'))
      × ((http_error_response text (wrapped o k p c r e)).status ≡ 500)
unfolding http_error_response
server_fault_masked text text' k o o' p p' c c' r r' e e' (inl h) = rw h (refl, refl)
server_fault_masked text text' k o o' p p' c c' r r' e e' (inr (inl h)) = rw h (refl, refl)
server_fault_masked text text' k o o' p p' c c' r r' e e' (inr (inr h)) = rw h (refl, refl)

append_assoc : (xs ys zs : List String) → (xs ++ ys) ++ zs ≡ xs ++ (ys ++ zs)
append_assoc [] ys zs = refl
append_assoc (x ∷ xs) ys zs = ap (λ l. x ∷ l) (append_assoc xs ys zs)

reverse_onto-append : (acc xs : List String) → reverse_onto acc xs ≡ reverse_onto [] xs ++ acc
unfolding reverse_onto
reverse_onto-append acc [] = refl
reverse_onto-append acc (x ∷ xs) =
    reverse_onto-append (x ∷ acc) xs
    ∙ sym (append_assoc (reverse_onto [] xs) (x ∷ []) acc)
    ∙ ap (λ l. l ++ acc) (sym (reverse_onto-append (x ∷ []) xs))

append_nil : (xs : List String) → xs ++ [] ≡ xs
append_nil [] = refl
append_nil (x ∷ xs) = ap (λ l. x ∷ l) (append_nil xs)

-- Wrapping an error puts its operation at the end of the stack, after the operations of the cause;
-- a wrapper with no operation adds nothing.
pub op_stack-wrapped :
    (o : String) (k : Kind) (p c r : String) (e : Error)
    → op_stack (wrapped o k p c r e) ≡ op_stack e ++ (if str_eq o "" then [] else o ∷ [])
unfolding op_stack collect_ops reverse_onto
op_stack-wrapped o k p c r e = elim (Bool-cases (str_eq o "")) [
  | inl h ↦ rw h (sym (append_nil (reverse_onto [] (collect_ops e))))
  | inr h ↦ rw h (reverse_onto-append (o ∷ []) (collect_ops e))
]
