-- ===== src/Json/Value.antt =====
-- Values of JSON, as a payload or a jsonb column holds them: what src/alerts/alerts.service.ts and
-- src/kafka read in them. A number is the text that `String` prints for it.
use logchain.Prelude.{
  Bool, true, false, Option, none, some, List, [], ◌∷◌, ◌++◌, Text, codes, text_eq, if◌then◌else◌,
}

mutual
  pub data JsonValue : Type 0 where
    null : JsonValue
    bool : Bool → JsonValue
    number : Text → JsonValue
    string : Text → JsonValue
    array : JsonItems → JsonValue
    object : JsonFields → JsonValue

  pub data JsonItems : Type 0 where
    nil : JsonItems
    cons : JsonValue → JsonItems → JsonItems

  pub data JsonFields : Type 0 where
    end : JsonFields
    field : Text → JsonValue → JsonFields → JsonFields

-- `o[key]` of the fields of an object
unfoldable pub get_field : Text → JsonFields → Option JsonValue
get_field key end = none
get_field key (field k v fs) = let rest = get_field key fs in if text_eq key k then some v else rest

-- `{ ...o, [key]: value }`, where a key that is there keeps its place.
unfoldable pub set_field : Text → JsonValue → JsonFields → JsonFields
set_field key value end = field key value end
set_field key value (field k v fs) =
    let rest = set_field key value fs in if text_eq key k then field k value fs else field k v rest

-- `detail?.[key]` of any value: only objects have the fields that the code asks for.
unfoldable pub field_of : Text → JsonValue → Option JsonValue
unfolding get_field
field_of key (object fs) = get_field key fs
field_of key v = none

-- The fields that `{ ...value }` copies where the code has tested that it is an object.
unfoldable pub fields_of : JsonValue → JsonFields
fields_of (object fs) = fs
fields_of v = end

-- `String(value)`
unfoldable mutual
  pub text_of : JsonValue → Text
  text_of null = codes "null"
  text_of (bool true) = codes "true"
  text_of (bool false) = codes "false"
  text_of (number n) = n
  text_of (string s) = s
  text_of (array xs) = join_items xs
  text_of (object fs) = codes "[object Object]"

  -- `Array.prototype.join`, where null is empty
  pub join_items : JsonItems → Text
  join_items nil = []
  join_items (cons null nil) = []
  join_items (cons null (cons y ys)) = codes "," ++ join_items (cons y ys)
  join_items (cons (bool b) nil) = text_of (bool b)
  join_items (cons (bool b) (cons y ys)) = text_of (bool b) ++ codes "," ++ join_items (cons y ys)
  join_items (cons (number n) nil) = n
  join_items (cons (number n) (cons y ys)) = n ++ codes "," ++ join_items (cons y ys)
  join_items (cons (string s) nil) = s
  join_items (cons (string s) (cons y ys)) = s ++ codes "," ++ join_items (cons y ys)
  join_items (cons (array xs) nil) = join_items xs
  join_items (cons (array xs) (cons y ys)) = join_items xs ++ codes "," ++ join_items (cons y ys)
  join_items (cons (object fs) nil) = codes "[object Object]"
  join_items (cons (object fs) (cons y ys)) =
      codes "[object Object]" ++ codes "," ++ join_items (cons y ys)

-- The strings of an array, in order: `Array.isArray(raw) ? raw.filter(isString) : []`.
unfoldable pub strings_of : JsonItems → List Text
strings_of nil = []
strings_of (cons (string s) xs) = s ∷ strings_of xs
strings_of (cons x xs) = strings_of xs
