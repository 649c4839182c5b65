-- ===== src/Samples.antt =====
-- Concrete data for the tests: an environment that meets the assumptions on uuids, users, and a
-- database with nothing in it.
use Prim.Native.Char.{Char}
use package.text.Mathlib.TextLemmas.{nil≢cons, cons≢nil, tail-eq_of_cons-eq}
use Prim.Native.String.{count}
use dmp.Base.{
  none, some, ℕ, zero, suc, ◌+◌, ◌-◌, ◌*◌, ◌/◌, ◌^◌, ◌≡◌, refl, ap, String, Bool, true, false, [],
  ◌∷◌, ◌==◌, arith, ltb, leb, eqb, List, if◌then◌else◌,
}
use dmp.Base.Decimal.{decimal}
use dmp.Model.Value.{Value, undefined, number, text, Js}
use dmp.Model.Types.{
  User, UserType, admin, standard, guest, Role, DataPermission, study_user, Study, integer,
}
use dmp.Model.World.{World, Env}
use dmp.Model.Collection.{born}

abbrev mark : Char
mark = "u"

-- The n-th uuid is a text of n characters.
abbrev pub uuid_text : ℕ → String
uuid_text zero = String.[]
uuid_text (suc n) = String.◌∷◌ mark (uuid_text n)

uuid_text_injective : (j k : ℕ) → uuid_text j ≡ uuid_text k → j ≡ k
uuid_text_injective zero zero e = refl
uuid_text_injective zero (suc k) e = absurd (nil≢cons e)
uuid_text_injective (suc j) zero e = absurd (cons≢nil e)
uuid_text_injective (suc j) (suc k) e = ap suc (uuid_text_injective j k (tail-eq_of_cons-eq e))

-- Arithmetic on the numbers' codes themselves, and texts that are not read as numbers.
abbrev codes_of : (ℕ → ℕ → ℕ) → Value → Value → Value
codes_of f (number m) (number n) = number (f m n)
codes_of f v w = undefined

abbrev compared : (ℕ → ℕ → Bool) → Value → Value → Bool
compared f (number m) (number n) = f m n
compared f v w = false

abbrev shown : Value → String
shown (text s) = s
shown (number n) = decimal n
shown v = "?"

abbrev largest : ℕ → List Value → ℕ
largest n [] = n
largest n (number m ∷ vs) = largest (if ltb n m then m else n) vs
largest n (v ∷ vs) = largest n vs

abbrev pub sample_js : Js
sample_js = record {
  plus = codes_of (λ m n. m + n);
  minus = codes_of (λ m n. m - n);
  times = codes_of (λ m n. m * n);
  divide = codes_of (λ m n. m / n);
  power = codes_of (λ m n. m ^ n);
  less = compared ltb;
  at_most = compared leb;
  same_number = eqb;
  nonzero = λ n. ltb 0 n;
  to_text = shown;
  parse_float = λ s. 0;
  parse_int = λ s. 0;
  floor_number = λ v. 0;
  parts = λ s. s ∷ [];
  substr = λ s a b. s;
  of_length = λ n. n;
  text_length = count;
  maximum = largest 0;
  minimum = λ vs. 0;
  member = λ v k. undefined;
  lower = λ s. s;
  parse_json = λ s. some (text s);
}

-- Patterns match themselves only, every file is a picture, and the store takes everything.
abbrev pub sample_env : Env
sample_env = record {
  uuid = λ n. uuid_text (suc n);
  now = λ n. n + 1;
  matches = λ r s. r == s;
  matches_i = λ r s. r == s;
  extension = λ s. "PNG";
  stores = λ b u. true;
  js = sample_js;
}

pub sample_uuids_differ : (j k : ℕ) → sample_env.uuid j ≡ sample_env.uuid k → j ≡ k
sample_uuids_differ j k e = omega (arith, uuid_text_injective (suc j) (suc k) e)

abbrev pub user_of : String → UserType → User
user_of i t = record { id = i; username = i; email = i; user_type = t; life = born 1 "system" }

abbrev pub root : User
root = user_of "root" admin

abbrev pub alice : User
alice = user_of "alice" standard

abbrev pub bob : User
bob = user_of "bob" standard

abbrev pub visitor : User
visitor = user_of "visitor" guest

abbrev pub empty_world : World
empty_world = record {
  env = sample_env;
  issued = 0;
  ticks = 0;
  users = [];
  roles = [];
  studies = [];
  drives = [];
  files = [];
  organisations = [];
  domains = [];
  configs = [];
  field_dictionary = [];
  data_clips = [];
  cold_data = [];
  caches = [];
  jobs = [];
}

-- Alice may do everything with the fields of the study "s", Bob may read them.
abbrev pub everything : DataPermission
everything = record {
  fields = "^.*$" ∷ [];
  data_properties = [];
  include_un_versioned = true;
  permission = 7;
}

abbrev pub writers : Role
writers = record {
  id = "w";
  study_id = "s";
  name = "Writers";
  description = none;
  data_permissions = everything ∷ [];
  study_role = study_user;
  users = "alice" ∷ [];
  life = born 0 "root";
}

abbrev pub readers : Role
readers = record writers {
  id = "r";
  data_permissions = (record everything { permission = 4 }) ∷ [];
  users = "bob" ∷ [];
}

abbrev pub trial : Study
trial = record {
  id = "s";
  name = "Trial";
  current_data_version = 0;
  data_versions = [];
  description = "";
  profile = none;
  is_public = false;
  life = born 0 "root";
}

-- Every text matches every pattern.
abbrev pub trial_world : World
trial_world = record empty_world {
  env = record sample_env { matches = λ r s. true };
  roles = writers ∷ readers ∷ [];
  studies = trial ∷ [];
}

abbrev pub with_age : World
with_age = record trial_world {
  ticks = 2;
  field_dictionary =
      (record {
        id = "f";
        study_id = "s";
        field_name = "Age";
        field_id = "age";
        description = none;
        data_type = integer;
        categorical_options = none;
        unit = some "years";
        comments = none;
        data_version = none;
        verifier = some [];
        properties = none;
        metadata = [];
        life = born 1 "alice";
      })
      ∷ [];
}
