-- ===== src/Model/Action.antt =====
-- A core function's effects: it reads and writes the database and may throw. What was written stays
-- written after a throw, since no function opens a transaction
-- (packages/itmat-types/src/types/coreErrors.ts, packages/itmat-cores/src/utils/responses.ts).
pub mod Post
use dmp.Base.{ℕ, suc, String, Bool, Option, none, some, if◌then◌else◌}
use dmp.Model.World.{World}

pub data CoreErrors : Type 0 where
  database_error not_logged_in client_malformed_input client_action_on_non_existent_entry :
      CoreErrors
  authentication_error no_permission_error file_stream_error obj_store_error : CoreErrors
  unqualified_error not_implemented polling_error : CoreErrors

-- The texts of the codes that the source also uses as messages.
abbrev pub code_text : CoreErrors → String
code_text database_error = "DATABASE_ERROR"
code_text not_logged_in = "NOT_LOGGED_IN"
code_text client_malformed_input = "CLIENT_MALFORMED_INPUT"
code_text client_action_on_non_existent_entry = "CLIENT_ACTION_ON_NON_EXISTENT_ENTRY"
code_text authentication_error = "AUTHENTICATION_ERROR"
code_text no_permission_error = "NO_PERMISSION_ERROR"
code_text file_stream_error = "FILE_STREAM_ERROR"
code_text obj_store_error = "OBJ_STORE_ERROR"
code_text unqualified_error = "UNQUALIFIED_ERROR"
code_text not_implemented = "NOT_IMPLEMENTED"
code_text polling_error = "POLLING_ERROR"

pub data Result (A : Type 0) : Type 0 where
  ok : A → Result A
  err : CoreErrors → String → Result A

abbrev pub Action : Type 0 → Type 0
Action A = World → Result A × World

-- `IGenericResponse`, as far as the core functions fill it in.
pub record GenericResponse : Type 0 where
  pub id : String
  pub description : String

module _ {A : Type 0} where
  pub pure : A → Action A
  pure a w = (ok a, w)

  pub throw : CoreErrors → String → Action A
  throw e m w = (err e m, w)

  pub gets : (World → A) → Action A
  gets f w = (ok (f w), w)

  -- `if (!o) throw …`, then the value
  pub or_throw : Option A → CoreErrors → String → Action A
  or_throw none e m w = (err e m, w)
  or_throw (some a) e m w = (ok a, w)

pub throw_if : Bool → CoreErrors → String → Action (Unit {0})
throw_if b e m w = (if b then err e m else ok tt, w)

pub modify : (World → World) → Action (Unit {0})
modify f w = (ok tt, f w)

pub uuid : Action String
uuid w = (ok (w.env.uuid w.issued), record w { issued = suc w.issued })

pub date_now : Action ℕ
date_now w = (ok (w.env.now w.ticks), record w { ticks = suc w.ticks })

abbrev pub resume : {A B : Type 0} → (A → Action B) → Result A × World → Result B × World
resume k (ok a, w) = k a w
resume k (err e m, w) = (err e m, w)

-- `try { m } catch { h }`
unfoldable pub try_catch : {A : Type 0} → Action A → Action A → Action A
try_catch m h w = let (r, w') = m w in elim r [ ok a ↦ (ok a, w') | err e t ↦ h w' ]

-- Opening this opens the primitive steps too.
infixl 5 ◌>>=◌ ◌>>◌
unfoldable pub ◌>>=◌ : {A B : Type 0} → Action A → (A → Action B) → Action B
unfolding pure throw gets or_throw throw_if modify uuid date_now
◌>>=◌ m k w = resume k (m w)

abbrev pub ◌>>◌ : {A B : Type 0} → Action A → Action B → Action B
m >> n = m >>= λ _. n
