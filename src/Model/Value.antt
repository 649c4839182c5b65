-- ===== src/Model/Value.antt =====
-- Values of a dynamic type (`unknown` in the source), objects as lists of their own properties in the
-- order of insertion, and what the language itself does with values.
pub mod Listing
use dmp.Base.{
  ℕ, ◌+◌, ◌-◌, ◌*◌, ◌^◌, String, Bool, true, false, ◌&&◌, Option, none, some, List, [], ◌∷◌, ◌++◌,
  ltb, leb, eqb, if◌then◌else◌, includes, lookup, ◌==◌, is_none, filter,
}
use Prim.Native.Char.{code}

-- A number stands by the code of its bits, so that arithmetic is the language's (`Js`). `inherited k` is
-- what every object takes from `Object.prototype` under the key `k`: that object itself under `__proto__`, else
-- a function.
mutual
  pub data Value : Type 0 where
    undefined : Value
    null : Value
    boolean : Bool → Value
    number : ℕ → Value
    text : String → Value
    array : Items → Value
    object : Entries → Value
    inherited : String → Value

  pub data Items : Type 0 where
    nil : Items
    cons : Value → Items → Items

  pub data Entries : Type 0 where
    end : Entries
    entry : String → Value → Entries → Entries

-- `Record<string, unknown>`
abbrev pub Clip : Type 0
Clip = List (String × Value)

abbrev pub items : Items → List Value
items nil = []
items (cons v vs) = v ∷ items vs

abbrev pub of_items : List Value → Items
of_items [] = nil
of_items (v ∷ vs) = cons v (of_items vs)

abbrev pub entries : Entries → Clip
entries end = []
entries (entry k v es) = (k, v) ∷ entries es

abbrev pub of_clip : Clip → Value
of_clip c = object (go c)
  where
    go : Clip → Entries
    go [] = end
    go ((k, v) ∷ es) = entry k v (go es)

-- The operators and conversions of the language: `+ - * /`, `Math.pow`, `<` and `<=` (`>` and `>=` are
-- these with their sides changed), `===` on numbers, `if (n)` on numbers, `String(v)`, `parseFloat`,
-- `parseInt(s, 10)`, `Math.floor(Number(v))`, `s.split('.')`, `s.substr(a, b)`, a length as a number, `s.length`,
-- `Math.max` and `Math.min` of an array, `v[k]` where `v` is no object of the program's own,
-- `s.toLowerCase()` and `JSON.parse(s)`, none where it throws.
pub record Js : Type 0 where
  pub plus : Value → Value → Value
  pub minus : Value → Value → Value
  pub times : Value → Value → Value
  pub divide : Value → Value → Value
  pub power : Value → Value → Value
  pub less : Value → Value → Bool
  pub at_most : Value → Value → Bool
  pub same_number : ℕ → ℕ → Bool
  pub nonzero : ℕ → Bool
  pub to_text : Value → String
  pub parse_float : String → ℕ
  pub parse_int : String → ℕ
  pub floor_number : Value → ℕ
  pub parts : String → List String
  pub substr : String → Value → Value → String
  pub of_length : ℕ → ℕ
  pub text_length : String → ℕ
  pub maximum : List Value → ℕ
  pub minimum : List Value → ℕ
  pub member : Value → String → Value
  pub lower : String → String
  pub parse_json : String → Option Value

-- The keys of `Object.prototype`. Writes to `__proto__`, which set no property, are left out.
abbrev pub prototype_keys : List String
prototype_keys =
    "constructor" ∷ "hasOwnProperty" ∷ "isPrototypeOf" ∷ "propertyIsEnumerable" ∷ "toLocaleString"
    ∷ "toString" ∷ "valueOf" ∷ "__defineGetter__" ∷ "__defineSetter__" ∷ "__lookupGetter__"
    ∷ "__lookupSetter__" ∷ "__proto__" ∷ []

-- Shut where a proof needs only that it is some test.
unfoldable pub inherits : String → Bool
inherits k = includes prototype_keys k

-- `clip[k]`
unfoldable pub read : String → Clip → Value
unfolding inherits
read k c = elim (lookup k c) [ some v ↦ v | none ↦ if inherits k then inherited k else undefined ]

-- `k in clip`
unfoldable pub has : String → Clip → Bool
unfolding inherits
has k c = elim (lookup k c) [ some v ↦ true | none ↦ inherits k ]

-- `if (v)`
abbrev pub holds : Js → Value → Bool
holds js undefined = false
holds js null = false
holds js (boolean b) = b
holds js (number n) = js.nonzero n
holds js (text s) = if s == "" then false else true
holds js (array vs) = true
holds js (object es) = true
holds js (inherited k) = true

-- `a === b`; two arrays, objects or inherited values are never the same one here.
abbrev pub strict_equal : Js → Value → Value → Bool
strict_equal js undefined undefined = true
strict_equal js null null = true
strict_equal js (boolean a) (boolean b) = if a then b else (if b then false else true)
strict_equal js (number m) (number n) = js.same_number m n
strict_equal js (text s) (text t) = s == t
strict_equal js _ _ = false

abbrev pub is_undefined : Value → Bool
is_undefined undefined = true
is_undefined _ = false

abbrev pub is_null : Value → Bool
is_null null = true
is_null _ = false

-- The value of a run of digits, `none` where there is another character.
index_from : ℕ → String → Option ℕ
index_from n String.[] = some n
index_from n (String.◌∷◌ c s) =
    let rest = index_from (n * 10 + (code c - 48)) s in
    if leb 48 (code c) && leb (code c) 57 then rest else none

-- An array index in its usual form: `0`, or digits that do not begin with one, below 2^32 - 1.
unfoldable pub index_of : String → Option ℕ
unfolding index_from
index_of String.[] = none
index_of (String.◌∷◌ c s) =
    if eqb (code c) 48
    then (if s == "" then some 0 else none)
    else elim (index_from 0 (String.◌∷◌ c s)) [
      | none ↦ none
      | some n ↦ if ltb n (2 ^ 32 - 1) then some n else none
    ]

module _ {ℓ} {V : Type ℓ} where
  -- Into its place among indices in ascending order.
  place : ℕ → String × V → List (String × V) → List (String × V)
  place n p [] = p ∷ []
  place n p (q ∷ qs) =
      let later = q ∷ place n p qs in
      elim (index_of q.0) [ none ↦ later | some m ↦ if ltb m n then later else p ∷ q ∷ qs ]

  indexed : List (String × V) → List (String × V)
  indexed [] = []
  indexed (p ∷ ps) =
      let rest = indexed ps in elim (index_of p.0) [ none ↦ rest | some n ↦ place n p rest ]

  -- The own properties as `Object.keys` and `Object.values` list them: indices first, in ascending
  -- order, then the other keys in the order of insertion.
  unfoldable pub listing : List (String × V) → List (String × V)
  unfolding index_of place indexed
  listing ps = indexed ps ++ filter (λ p. is_none (index_of p.0)) ps
