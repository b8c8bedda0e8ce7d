-- ===== src/Proxy/Json.antt =====
-- What the projections use of `serde_json::Value`, and `if let Some(x) = .. { out[k] = json!(x) }`.
use pingling.Prelude.{
  ℕ, String, ◌≡◌, List, [], ◌∷◌, map, Option, none, some, Bool, str_eq, if◌then◌else◌,
}
use pingling.Prelude.Int.{ℤ, pos}

-- `set v k w` is `v[k] = w`, and `get` is `Value::get`.
pub record JsonValue (V : Type 0) : Type 0 where
  pub null : V
  pub bool : Bool → V
  pub number : ℤ → V
  pub string : String → V
  pub array : List V → V
  pub object : List (String × V) → V
  pub set : V → String → V → V
  pub get : V → String → Option V

-- The value at a key, the last where there are several.
abbrev pub lookup : {V : Type 0} → String → List (String × V) → Option V
lookup k [] = none
lookup k ((j, v) ∷ fields) = elim (lookup k fields) [
  | some w ↦ some w
  | none ↦ if str_eq j k then some v else none
]

-- What is relied on of `Value`: an object has its fields, and an assignment changes one of them.
pub record Laws {V : Type 0} (j : JsonValue V) : Type 1 where
  pub IsObject : V → Type 0
  pub object_is : (fields : List (String × V)) → IsObject (j.object fields)
  pub set_is : (v : V) (k : String) (w : V) → IsObject v → IsObject (j.set v k w)
  pub get_object :
      (fields : List (String × V)) (k : String) → j.get (j.object fields) k ≡ lookup k fields
  pub get_set :
      (v : V) (k q : String) (w : V)
      → IsObject v
      → j.get (j.set v k w) q ≡ (if str_eq k q then some w else j.get v q)

module _ {V : Type 0} ⦃j : JsonValue V⦄ where
  unfoldable pub set_some : {A : Type 0} → String → (A → V) → Option A → V → V
  set_some k f none out = out
  set_some k f (some x) out = j.set out k (f x)

  unfoldable pub set_if : Bool → String → V → V → V
  set_if b k v out = if b then j.set out k v else out

  abbrev pub nat : ℕ → V
  nat n = j.number (pos n)

  abbrev pub strings : List String → V
  strings ss = j.array (map j.string ss)

  abbrev pub string_map : List (String × String) → V
  string_map entries = j.object (map (λ e. (e.0, j.string e.1)) entries)

  -- `json!` of an option
  abbrev pub optional : {A : Type 0} → (A → V) → Option A → V
  optional f none = j.null
  optional f (some x) = f x

abbrev pub unwrap_or : {A : Type 0} → A → Option A → A
unwrap_or a none = a
unwrap_or a (some b) = b
