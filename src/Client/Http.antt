-- ===== src/Client/Http.antt =====
-- frontend/src/api/client.ts: the function `req`, over `fetch`'s request and response.
use rig_stack.Prelude.{
  ℕ, String, ◌<>◌, Bool, true, false, ◌&&◌, not, Option, none, some, List, leb, eqb, if◌then◌else◌,
  ◌==◌,
}
use rig_stack.Prelude.Text.{decimal}

-- A JSON value; a number is kept as the text that JavaScript prints for it, which is all that the
-- client reads of one.
mutual
  pub data Json : Type 0 where
    null : Json
    bool : Bool → Json
    num : String → Json
    str : String → Json
    arr : Items → Json
    obj : Fields → Json

  pub data Items : Type 0 where
    nil : Items
    item : Json → Items → Items

  pub data Fields : Type 0 where
    end : Fields
    field : String → Json → Fields → Fields

pub data Method : Type 0 where
  get post put delete : Method

-- What `fetch` is called with. `body` is the value that is handed to `JSON.stringify`.
pub record Request : Type 0 where
  pub method : Method
  pub path : String
  pub headers : List (String × String)
  pub body : Option Json

-- What `res.json()` comes to: a value, or the message of the error that it throws.
pub data Parsed : Type 0 where
  value : Json → Parsed
  unreadable : String → Parsed

pub record Response : Type 0 where
  pub status : ℕ
  pub json : Parsed

-- `fetch` rejects, with a message, or gives a response.
pub data Fetched : Type 0 where
  rejected : String → Fetched
  response : Response → Fetched

-- What a promise of the client comes to: a value, or an `Error` with its message.
pub data Result {ℓ} (A : Type ℓ) : Type ℓ where
  ok : A → Result A
  err : String → Result A

-- `Response.ok`: a status of 200 to 299.
abbrev pub is_ok : Response → Bool
is_ok r = leb 200 r.status && leb r.status 299

-- A property of a parsed object: of a key that occurs twice `JSON.parse` keeps the last value.
property : String → Fields → Option Json
property k end = none
property k (field j v fs) = elim (property k fs) [
  | some w ↦ some w
  | none ↦ if j == k then some v else none
]

-- `null` is empty in a joined array.
abbrev pub element : Json → String → String
element null t = ""
element (bool b) t = t
element (num n) t = t
element (str s) t = t
element (arr xs) t = t
element (obj fs) t = t

-- `String(v)`, as the constructor `Error` applies it to its message. An object's own `toString`
-- is not looked up.
unfoldable mutual
  pub to_string : Json → String
  to_string null = "null"
  to_string (bool true) = "true"
  to_string (bool false) = "false"
  to_string (num n) = n
  to_string (str s) = s
  to_string (arr xs) = join_items xs
  to_string (obj fs) = "[object Object]"

  pub join_items : Items → String
  join_items nil = ""
  join_items (item x xs) = elim xs [
    | nil ↦ element x (to_string x)
    | item y ys ↦ element x (to_string x) <> "," <> join_items xs
  ]

-- `HTTP ${res.status}`.
abbrev pub http_message : ℕ → String
http_message status = "HTTP " <> decimal status

-- `body.error ?? …` of a property that may be missing or `null`.
abbrev error_or : Option Json → String → String
error_or none d = d
error_or (some null) d = d
error_or (some (bool b)) d = to_string (bool b)
error_or (some (num n)) d = n
error_or (some (str s)) d = s
error_or (some (arr xs)) d = to_string (arr xs)
error_or (some (obj fs)) d = to_string (obj fs)

-- The message of the `Error` that `req` throws for a response that is not ok. A body that does not
-- parse counts as `{}`; only an object has a property `error`, and `null.error` throws an error
-- whose message, `of_null`, is the browser's.
thrown : String → Response → String
unfolding property to_string
thrown of_null r = elim r.json [
  | unreadable m ↦ http_message r.status
  | value v ↦ elim v [
    | null ↦ of_null
    | obj fs ↦ error_or (property "error" fs) (http_message r.status)
    | _ ↦ http_message r.status
  ]
]

-- What `res.json()` hands to the caller of `req`.
unfoldable pub read_json : Parsed → Result (Option Json)
read_json (value v) = ok (some v)
read_json (unreadable m) = err m

-- `req`: the value `none` is `undefined`.
unfoldable pub req : String → Fetched → Result (Option Json)
unfolding thrown read_json
req of_null (rejected m) = err m
req of_null (response r) =
    if not (is_ok r)
    then err (thrown of_null r)
    else if eqb r.status 204
    then ok none
    else read_json r.json

-- A promise of `req<void>`: whether it failed.
abbrev pub to_void {ℓ} : {A : Type ℓ} → Result A → Result (Unit {0})
to_void (ok a) = ok tt
to_void (err m) = err m
