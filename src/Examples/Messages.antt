-- ===== src/Examples/Messages.antt =====
-- The theorems about typed errors at concrete keys.
use goapp.Base.{Option, List, [], ◌≡◌, String}
use goapp.GoRuntime.{returns}
use goapp.Errors.{key_string, timeout_error, global_typed_error_messages}
use goapp.Errors.Construct.{Error, new_typed_error}
use goapp.Errors.TableLaws.{new_typed_error-code}

-- A format that ignores its arguments.
abbrev plain : String → List (Option String) → String
plain text args = text

new_typed_error-code_example :
    (e : Error) × (new_typed_error plain
        (key_string timeout_error)
        7
        []
        global_typed_error_messages
        4
      ≡ returns e 5)
    × (e.code ≡ key_string timeout_error)
    × (e.external_id ≡ 7)
    × (e.id ≡ 5)
new_typed_error-code_example = new_typed_error-code plain timeout_error 7 4 []
