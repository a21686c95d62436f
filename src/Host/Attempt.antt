-- ===== src/Host/Attempt.antt =====
-- Actions that may fail (`async fn … -> crate::Result<A>`): `?` is the bind.
use vasal.Prelude.{String, Bool, true, false, [], ◌∷◌, format}
use vasal.Prelude.Results.{Result, ok, err}
use vasal.Host.Act.{Act}

-- `crate::Error`, with the texts of the wrapped errors
pub data Error : Type 0 where
  config state io transport auth protocol http json task unit_error join_error : String → Error
  sha256_mismatch : (expected actual : String) → Error
  -- No error of the code: the call never comes back. `?` passes it on, and code that handles errors
  -- does not go on after it (Host.Run.handled).
  unanswered : Error

-- `#[error("…")]`
unfoldable pub error_text : Error → String
error_text (config e) = format ("configuration: " ∷ e ∷ [])
error_text (state e) = format ("state store: " ∷ e ∷ [])
error_text (io e) = format ("I/O: " ∷ e ∷ [])
error_text (transport e) = format ("transport: " ∷ e ∷ [])
error_text (auth e) = format ("authentication: " ∷ e ∷ [])
error_text (protocol e) = format ("protocol: " ∷ e ∷ [])
error_text (http e) = format ("HTTP: " ∷ e ∷ [])
error_text (json e) = format ("JSON: " ∷ e ∷ [])
error_text (task e) = format ("task: " ∷ e ∷ [])
error_text (unit_error e) = format ("unit management: " ∷ e ∷ [])
error_text (sha256_mismatch expected actual) =
    format ("SHA-256 mismatch: expected " ∷ expected ∷ ", got " ∷ actual ∷ [])
error_text (join_error e) = format ("join: " ∷ e ∷ [])
error_text unanswered = ""

unfoldable pub is_unanswered : Error → Bool
is_unanswered unanswered = true
is_unanswered _ = false

-- `?` on an I/O result whose error is its text
abbrev pub io_text : {A : Type 0} → Result String A → Result Error A
io_text (ok a) = ok a
io_text (err e) = err (io e)

abbrev pub Attempt : Type 0 → Type 0 → Type 0
Attempt V A = Act V (Result Error A)

module _ {V : Type 0} where
  abbrev pub succeed : {A : Type 0} → A → Attempt V A
  succeed a w = (ok a, w)

  abbrev pub fail : {A : Type 0} → Error → Attempt V A
  fail e w = (err e, w)

  abbrev pub continue : {A B : Type 0} → Result Error A → (A → Attempt V B) → Attempt V B
  continue (ok a) f w = f a w
  continue (err e) f w = (err e, w)

  infixl 5 ◌>>=◌ ◌>>◌
  abbrev pub ◌>>=◌ : {A B : Type 0} → Attempt V A → (A → Attempt V B) → Attempt V B
  m >>= f = λ w. let (r, w') = m w in continue r f w'

  abbrev pub ◌>>◌ : {A B : Type 0} → Attempt V A → Attempt V B → Attempt V B
  m >> n = m >>= λ _. n

  -- An action that does not fail, as a step of one that may.
  abbrev pub lift : {A : Type 0} → Act V A → Attempt V A
  lift m w = let (a, w') = m w in (ok a, w')

  -- A computed result, as a step.
  abbrev pub of_result : {A : Type 0} → Result Error A → Attempt V A
  of_result r w = (r, w)
