-- ===== src/HttpLog/Logged.antt =====
-- What is written to the log of the HTTP traffic.
use mathlib.Core.Bool.{false≢true}
use mathlib.Core.List.{append-nil}
use goapp.Base.{
  ℕ, Bool, true, false, ◌&&◌, Option, none, some, List, [], ◌∷◌, ◌++◌, String, if◌then◌else◌,
  is_some, ◌≡◌, refl, ap, ◌∙◌, sym, if_cases, subst,
}
use goapp.GoRuntime.{M, Out, returns}
use goapp.Errors.{Failure}
use goapp.HttpLog.{
  LogConfig, HttpLogger, Entry, Kind, out_request, in_response, in_request, out_response,
  set_config, closed, configured, open_file, log_dump, log_http_out_request, log_http_in_response,
  log_http_in_request, log_http_out_response, dumped, file_name,
}

-- The four calls, one for each kind, with dumps that can be made.
abbrev pub log_http : Kind → ℕ → M HttpLogger (Option Failure)
log_http out_request id = log_http_out_request id true none
log_http in_response id = log_http_in_response id true none
log_http in_request id = log_http_in_request id true none
log_http out_response id = log_http_out_response id true

-- What a configuration asks for: the entries of one call.
abbrev pub flag_of : Kind → LogConfig → Bool
flag_of out_request c = c.log_out_req
flag_of in_response c = c.log_in_resp
flag_of in_request c = c.log_in_req
flag_of out_response c = c.log_out_resp

abbrev pub asked : Kind → LogConfig → List Entry
asked k c =
    if c.enable && flag_of k c then (record { kind = k; with_body = c.log_body } ∷ []) else []

-- A logger that is configured as `c` says.
abbrev Ready : LogConfig → HttpLogger → Type 0
Ready c t =
    (d : LogConfig) × (t.cfg ≡ some d)
    × (d.enable ≡ c.enable)
    × (d.log_body ≡ c.log_body)
    × ((k : Kind) → flag_of k d ≡ flag_of k c)
    × (c.enable ≡ true → is_some t.file_logger ≡ true)

abbrev BecomesReady : LogConfig → Out HttpLogger (Option Failure) → Type 0
BecomesReady c (returns none t) = Ready c t
BecomesReady c _ = Unit

same_flags :
    (f : Option String) (c : LogConfig) (k : Kind)
    → flag_of k (record c { file_config = f }) ≡ flag_of k c
same_flags f c out_request = refl
same_flags f c in_response = refl
same_flags f c in_request = refl
same_flags f c out_response = refl

open_file-BecomesReady :
    (c : LogConfig) (f : Option String) (s : HttpLogger) → BecomesReady c (open_file c f s)
unfolding open_file
open_file-BecomesReady c none s = tt
open_file-BecomesReady c (some name) s =
    (record c { file_config = some (file_name name) }, refl, refl, refl, same_flags _ c, λ _. refl)

configured-BecomesReady : (c : LogConfig) (s : HttpLogger) → BecomesReady c (configured c s)
unfolding configured
configured-BecomesReady c s =
    if_cases (BecomesReady c) c.enable _ _ (λ _. open_file-BecomesReady c c.file_config s)
      (λ f. (c, refl, refl, refl, λ _. refl, λ t. absurd (false≢true (sym f ∙ t))))

closed-BecomesReady :
    (e : Option Failure) (f : Option String) (c : LogConfig) (s : HttpLogger)
    → BecomesReady c (closed e f c s)
unfolding closed
closed-BecomesReady (some e) (some file) c s = tt
closed-BecomesReady (some e) none c s = configured-BecomesReady c s
closed-BecomesReady none f c s = configured-BecomesReady c s

abbrev entries_of : Kind → Bool → Bool → List Entry
entries_of k b body = if b then (record { kind = k; with_body = body } ∷ []) else []

bits :
    {A : Type 0} (e f g : Bool) (x y : A)
    → (e ≡ true → f ≡ true)
    → (if e && f && true && g then x else y) ≡ (if e && g then x else y)
bits true true g x y h = refl
bits true false g x y h = absurd (false≢true (h refl))
bits false f g x y h = refl

entry_or_not :
    (k : Kind) (id : ℕ) (b body : Bool) (t : HttpLogger)
    → (if b then dumped id k body none t else returns none t)
      ≡ returns none (record t { entries = t.entries ++ entries_of k b body })
unfolding dumped
entry_or_not k id true body t = refl
entry_or_not k id false body t =
    ap (λ l. returns none (record t { entries = l })) (sym (append-nil t.entries))

Ready-dump :
    (k : Kind) (id : ℕ) (c : LogConfig) (t : HttpLogger)
    → Ready c t
    → log_dump (flag_of k) id k true true none t.cfg t
      ≡ returns none (record t { entries = t.entries ++ asked k c })
unfolding log_dump
Ready-dump k id c t (d, q, e, b, f, h) =
    ap (λ o. log_dump (flag_of k) id k true true none o t) q
    ∙ bits d.enable (is_some t.file_logger) (flag_of k d) (dumped id k d.log_body none t)
        (returns none t) (λ x. h (sym e ∙ x))
    ∙ entry_or_not k id (d.enable && flag_of k d) d.log_body t
    ∙ ap (λ x. returns none (record t { entries = t.entries ++ entries_of k x d.log_body }))
        (ap (λ y. y && flag_of k d) e ∙ ap (λ y. c.enable && y) (f k))
    ∙ ap
        (λ y.
          returns none
            (record t { entries = t.entries ++ entries_of k (c.enable && flag_of k c) y }))
        b

kind_dump :
    (k : Kind) (id : ℕ) (c : LogConfig) (t : HttpLogger) {o : Out HttpLogger (Option Failure)}
    → log_dump (flag_of k) id k true true none t.cfg t ≡ o
    → log_http k id t ≡ o
unfolding log_http_out_request log_http_in_response log_http_in_request log_http_out_response
kind_dump out_request id c t e = e
kind_dump in_response id c t e = e
kind_dump in_request id c t e = e
kind_dump out_response id c t e = e

-- Behind a `SetConfig` that gave no error, each of the four calls of the log writes exactly what the new
-- configuration asks for, if the dump can be made: one entry if the log is on and the flag of the
-- call is set, with the body if this is configured, and else nothing, also when the log
-- had been on before.
pub set_config-log_http :
    (close_err : Option Failure) (c : LogConfig) (s t : HttpLogger)
    → set_config close_err (some c) s ≡ returns none t
    → (k : Kind) (id : ℕ)
    → log_http k id t ≡ returns none (record t { entries = t.entries ++ asked k c })
unfolding set_config
set_config-log_http close_err c s t e k id =
    let r = subst (BecomesReady c) e (closed-BecomesReady close_err s.file_logger c s) in
    kind_dump k id c t (Ready-dump k id c t r)
