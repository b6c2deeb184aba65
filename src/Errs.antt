-- ===== src/Errs.antt =====
-- errs/errs.go: errors that carry an operation, a kind and client-safe details around a cause.
pub mod Http
pub mod Chain
use podcast_backend.Prelude.{
  ℕ, String, Bool, true, false, ◌||◌, List, [], ◌∷◌, ◌++◌, str_eq, if◌then◌else◌, Option, none,
  some,
}

pub data Kind : Type 0 where
  other invalid database internal validation unauthenticated unauthorized : Kind

-- Errors that do not come from errs: pgx's, those of Postgres, of the JSON codec, and plain ones.
pub data Native : Type 0 where
  no_rows : Native
  invalid_uuid : String → Native
  unique_violation : Native
  out_of_range : Native
  invalid_byte : Native
  invalid_json : Native
  message : String → Native

-- A Go error value: nil, a native error, or an *errs.Error with its fields.
pub data Error : Type 0 where
  nil : Error
  native : Native → Error
  wrapped : (op : String) (kind : Kind) (param code realm : String) (cause : Error) → Error

-- The arguments of E, told apart by their Go types.
pub data Arg : Type 0 where
  op : String → Arg
  kind : Kind → Arg
  param : String → Arg
  code : String → Arg
  realm : String → Arg
  text : String → Arg
  cause : Error → Arg

-- The *Error that E fills in.
pub record Fields : Type 0 where
  pub op : String
  pub kind : Kind
  pub param : String
  pub code : String
  pub realm : String
  pub cause : Error

set_field : Fields → Arg → Fields
set_field e (Arg.op o) = record e { op = o }
set_field e (Arg.kind k) = record e { kind = k }
set_field e (Arg.param p) = record e { param = p }
set_field e (Arg.code c) = record e { code = c }
set_field e (Arg.realm r) = record e { realm = r }
set_field e (Arg.text s) = record e { cause = native (message s) }
set_field e (Arg.cause err) = record e { cause = err }

set_fields : Fields → List Arg → Fields
set_fields e [] = e
set_fields e (a ∷ args) = set_fields (set_field e a) args

abbrev empty_fields : Fields
empty_fields = record { op = ""; kind = other; param = ""; code = ""; realm = ""; cause = nil }

-- `if e.Kind == Other && e.Err != nil`: the kind of the first *Error of the cause.
inherit_kind : Kind → Error → Kind
inherit_kind other (wrapped o k p c r e) = k
inherit_kind other _ = other
inherit_kind invalid _ = invalid
inherit_kind database _ = database
inherit_kind internal _ = internal
inherit_kind validation _ = validation
inherit_kind unauthenticated _ = unauthenticated
inherit_kind unauthorized _ = unauthorized

close_fields : Fields → Error
close_fields e = wrapped e.op (inherit_kind e.kind e.cause) e.param e.code e.realm e.cause

-- errs.E; the panic on an empty argument list is not modelled: no call passes none.
unfoldable pub E : List Arg → Error
unfolding set_field set_fields inherit_kind close_fields
E args = close_fields (set_fields empty_fields args)

-- The operations from the surface to the root, as OpStack's loop collects them.
collect_ops : Error → List String
collect_ops nil = []
collect_ops (native n) = []
collect_ops (wrapped o k p c r e) =
    let rest = collect_ops e in if str_eq o "" then rest else o ∷ rest

-- Swapping the two ends inwards, as the loop does, is a reversal.
reverse_onto : List String → List String → List String
reverse_onto acc [] = acc
reverse_onto acc (x ∷ xs) = reverse_onto (x ∷ acc) xs

unfoldable pub op_stack : Error → List String
unfolding collect_ops reverse_onto
op_stack e = reverse_onto [] (collect_ops e)

same_kind : Kind → Kind → Bool
same_kind other other = true
same_kind invalid invalid = true
same_kind database database = true
same_kind internal internal = true
same_kind validation validation = true
same_kind unauthenticated unauthenticated = true
same_kind unauthorized unauthorized = true
same_kind _ _ = false

unfoldable pub kind_is : Error → Kind → Bool
unfolding same_kind
kind_is nil k = false
kind_is (native n) k = false
kind_is (wrapped o k' p c r e) k = same_kind k' k || kind_is e k

-- errors.Is(err, pgx.ErrNoRows), which looks through the wrappers.
unfoldable pub is_no_rows : Error → Bool
is_no_rows nil = false
is_no_rows (native no_rows) = true
is_no_rows (native _) = false
is_no_rows (wrapped o k p c r e) = is_no_rows e

-- A value, or what a failure leaves.
pub data Attempt {ℓ} (F : Type 0) (A : Type ℓ) : Type ℓ where
  ok : A → Attempt F A
  err : F → Attempt F A

-- A Go call with an error result.
abbrev pub Result {ℓ} : Type ℓ → Type ℓ
Result A = Attempt Error A
