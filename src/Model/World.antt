-- ===== src/Model/World.antt =====
-- The database (one list for each collection, in insertion order) and what the code takes from
-- outside: uuids, the clock, regular expressions, upper case and the object store.
use dmp.Base.{ℕ, String, Bool, List}
use dmp.Model.Types.{
  User, Role, Study, Drive, File, Organisation, Domain, Config, Field, Data, ColdData, Cache, Job,
}
use dmp.Model.Value.{Js}

-- What the program does not implement. The n-th call of `uuid()` and of `Date.now()` answers
-- `uuid n` and `now n`; `matches r s` is `new RegExp(r).test(s)`, `matches_i` the same with the flag
-- `i`; `extension s` is the last part of `s.split('.')` in upper case; `stores b u` says whether the
-- object store accepts the object `u` in the bucket `b`; `js` is what the language does with values.
pub record Env : Type 0 where
  pub uuid : ℕ → String
  pub now : ℕ → ℕ
  pub matches : String → String → Bool
  pub matches_i : String → String → Bool
  pub extension : String → String
  pub stores : String → String → Bool
  pub js : Js

pub record World : Type 0 where
  pub env : Env
  pub issued : ℕ
  pub ticks : ℕ
  pub users : List User
  pub roles : List Role
  pub studies : List Study
  pub drives : List Drive
  pub files : List File
  pub organisations : List Organisation
  pub domains : List Domain
  pub configs : List Config
  pub field_dictionary : List Field
  pub data_clips : List Data
  pub cold_data : List ColdData
  pub caches : List Cache
  pub jobs : List Job
