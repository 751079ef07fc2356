-- ===== src/Errors/TableLaws.antt =====
-- The typed errors that the constructors make, and additions to the table.
use goapp.Base.{
  ℕ, ◌+◌, ◌%◌, ◌^◌, ◌≡◌, refl, Option, none, some, List, [], ◌∷◌, String, str_eq, eq_iff,
  if◌then◌else◌, Bool-cases, inl, inr, sym, ◌∙◌, arith, ap,
}
use goapp.GoRuntime.{returns}
use goapp.Errors.Keys.{ErrKey, key_string}
use goapp.Errors.Messages.{ErrorMessage, global_typed_error_messages}
use goapp.Errors.Table.{code_of, code_of-lookup}
use goapp.Errors.Construct.{
  Error, lookup, put_message, append_typed_error_messages, get_typed_mess, new_typed_error, new,
  get_next_error_id, mess_of,
}

module _ (sprintf : String → List (Option String) → String) where
  found :
      (key : String) (args : List (Option String)) (table : List (String × ErrorMessage))
      (c : String)
      → code_of (lookup key table) ≡ some c
      → (get_typed_mess sprintf key args table).0 ≡ c
  unfolding get_typed_mess mess_of
  found key args table c e = ground arith

  -- A typed error has the code of its key, the external id that it was given, and the next number.
  pub new_typed_error-code :
      (k : ErrKey) (external_id n : ℕ) (args : List (Option String))
      → (e : Error) × (new_typed_error sprintf
            (key_string k)
            external_id
            args
            global_typed_error_messages
            n
          ≡ returns e ((n + 1) % 2 ^ 64))
        × (e.code ≡ key_string k)
        × (e.external_id ≡ external_id)
        × (e.id ≡ (n + 1) % 2 ^ 64)
  unfolding new_typed_error new get_next_error_id
  new_typed_error-code k external_id n args = (
    _,
    refl,
    found (key_string k) args global_typed_error_messages (key_string k) (code_of-lookup k),
    refl,
    refl,
  )

abbrev pub or_else : Option ErrorMessage → Option ErrorMessage → Option ErrorMessage
or_else none b = b
or_else (some a) b = some a

lookup-put_message :
    (j k : String) (m : ErrorMessage) (table : List (String × ErrorMessage))
    → lookup k (put_message j m table) ≡ (if str_eq j k then some m else lookup k table)
unfolding lookup put_message
lookup-put_message j k m [] = ground arith
lookup-put_message j k m ((i, n) ∷ rest) =
    ground (arith, lookup-put_message j k m rest, eq_iff i j, eq_iff i k, eq_iff j k)

-- The keys of a Go map are different.
abbrev pub IsMap : List (String × ErrorMessage) → Type 0
IsMap [] = Unit
IsMap ((j, m) ∷ rest) = (lookup j rest ≡ none) × IsMap rest

append_next :
    (j k : String) (m : ErrorMessage) (rest table : List (String × ErrorMessage))
    → lookup j rest ≡ none
    → or_else (lookup k rest) (if str_eq j k then some m else lookup k table)
      ≡ or_else (lookup k ((j, m) ∷ rest)) (lookup k table)
unfolding lookup
append_next j k m rest table e = elim (Bool-cases (str_eq j k)) [
  | inl t ↦
      let none_there : lookup k rest ≡ none =
        ap (λ x. lookup x rest) (sym ((eq_iff j k).0 t)) ∙ e in
      rw (t, none_there) refl
  | inr f ↦ rw f refl
]

append_nil : (table : List (String × ErrorMessage)) → append_typed_error_messages [] table ≡ table
unfolding append_typed_error_messages
append_nil table = refl

-- A message that is added wins over the one that the table has; all other keys find what they did.
pub lookup-append_typed_error_messages :
    (messages table : List (String × ErrorMessage)) (k : String)
    → IsMap messages
    → lookup k (append_typed_error_messages messages table)
      ≡ or_else (lookup k messages) (lookup k table)
unfolding append_typed_error_messages
lookup-append_typed_error_messages [] table k u = unfold lookup in refl
lookup-append_typed_error_messages ((j, m) ∷ rest) table k u =
    lookup-append_typed_error_messages rest (put_message j m table) k u.1
    ∙ ap (or_else (lookup k rest)) (lookup-put_message j k m table)
    ∙ append_next j k m rest table u.0
