-- ===== src/Errors/Construct.antt =====
-- pkg/common/error/error.go: the `Error` structure, its constructors and its text.
-- Arguments are taken as `fmt` prints them, with `none` for nil; `fmt.Sprintf` with a format of the
-- table is the parameter `sprintf`. The caller and the stack trace, which only the runtime knows,
-- are left out, and so are the details, which no constructor sets.
use goapp.Base.{ℕ, ◌+◌, ◌%◌, ◌^◌, Option, none, some, List, [], ◌∷◌, String, str_eq, if◌then◌else◌}
use goapp.GoRuntime.{M, ◌>>=◌, pure, returns}
use goapp.Errors.Text.{trim_right, with_arg}
use goapp.Errors.Keys.{key_string, message_not_found}
use goapp.Errors.Messages.{ErrorMessage}

-- The fields of `Error` that the constructors compute; `cause_message` is empty without a cause.
pub record Error : Type 0 where
  pub id : ℕ
  pub external_id : ℕ
  pub code : String
  pub message : String
  pub args : String
  pub cause_message : String

-- A lookup in a Go map: the zero value and `ok == false` on a missing key.
unfoldable pub lookup : String → List (String × ErrorMessage) → Option ErrorMessage
lookup k [] = none
lookup k ((j, m) ∷ rest) = if str_eq j k then some m else lookup k rest

abbrev pub zero_message : ErrorMessage
zero_message = record { code = ""; text = "" }

abbrev pub or_zero : Option ErrorMessage → ErrorMessage
or_zero none = zero_message
or_zero (some m) = m

-- `AppendTypedErrorMessages`: each message of the argument is written over the global map.
unfoldable pub put_message :
    String → ErrorMessage → List (String × ErrorMessage) → List (String × ErrorMessage)
put_message k m [] = (k, m) ∷ []
put_message k m ((j, n) ∷ rest) =
    if str_eq j k then (j, m) ∷ rest else (j, n) ∷ put_message k m rest

unfoldable pub append_typed_error_messages :
    List (String × ErrorMessage) → List (String × ErrorMessage) → List (String × ErrorMessage)
append_typed_error_messages [] table = table
append_typed_error_messages ((k, m) ∷ rest) table =
    append_typed_error_messages rest (put_message k m table)

-- `atomic.AddUint64(&errorID, 1)`, over the counter as the state.
unfoldable pub get_next_error_id : M ℕ ℕ
get_next_error_id n = let m = (n + 1) % 2 ^ 64 in returns m m

unfoldable pub join_args : List (Option String) → String
join_args [] = ""
join_args (none ∷ args) = join_args args
join_args (some a ∷ args) = with_arg a (join_args args)

-- `GetArgsString`
unfoldable pub get_args_string : List (Option String) → String
unfolding join_args
get_args_string args = trim_right (join_args args)

module _ (sprintf : String → List (Option String) → String) where
  unfoldable pub mess_of :
      String
      → List (Option String)
      → Option ErrorMessage
      → List (String × ErrorMessage)
      → String × String
  mess_of key args (some v) table = (v.code, sprintf v.text args)
  mess_of key args none table = (
    "",
    sprintf (or_zero (lookup (key_string message_not_found) table)).text
        (some key ∷ some (get_args_string args) ∷ []),
  )

  -- `GetTypedMess`: the code and the text.
  unfoldable pub get_typed_mess :
      String → List (Option String) → List (String × ErrorMessage) → String × String
  unfolding mess_of
  get_typed_mess key args table = mess_of key args (lookup key table) table

  -- `New`
  unfoldable pub new : String → String → List (Option String) → M ℕ Error
  new code msg args = do
    id ← get_next_error_id
    pure (record {
      id = id;
      external_id = 0;
      code = code;
      message = msg;
      args = get_args_string args;
      cause_message = "";
    })

  -- `NewTyped`
  unfoldable pub new_typed_error :
      String → ℕ → List (Option String) → List (String × ErrorMessage) → M ℕ Error
  unfolding get_typed_mess new
  new_typed_error key external_id args table = do
    let mess = get_typed_mess key args table
    err ← new mess.0 mess.1 args
    pure (record err { external_id = external_id })

  -- `WithCauseTyped`, through `WithCause`; `cause` is the printed cause.
  unfoldable pub with_cause_typed_error :
      String → ℕ → String → List (Option String) → List (String × ErrorMessage) → M ℕ Error
  unfolding get_typed_mess new
  with_cause_typed_error key external_id cause args table = do
    let mess = get_typed_mess key args table
    err ← new mess.0 mess.1 args
    pure (record err { external_id = external_id; cause_message = cause })
