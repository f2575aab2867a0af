-- ===== src/Context/Json.antt =====
-- JSON-like values: `Record<string, unknown>` is `Fields`, in insertion order, and a number is a
-- natural one or, by its 64 bits, any other.
use memoflow_api.Prelude.{ℕ, String, Bool, Option, none, some, ◌==◌, if◌then◌else◌}
use memoflow_api.Text.{Text}

pub data Number : Type 0 where
  natural : ℕ → Number
  other_number : ℕ → Number

mutual
  pub data Json : Type 0 where
    null : Json
    bool : Bool → Json
    num : Number → Json
    str : Text → Json
    arr : Items → Json
    obj : Fields → Json

  pub data Items : Type 0 where
    nil : Items
    cons : Json → Items → Items

  pub data Fields : Type 0 where
    end : Fields
    field : String → Json → Fields → Fields

-- `{ ...fields, [key]: v }`: a key that is there keeps its place.
unfoldable pub set_key : String → Json → Fields → Fields
set_key k v end = field k v end
set_key k v (field j w rest) = if j == k then field j v rest else field j w (set_key k v rest)

unfoldable pub get_key : String → Fields → Option Json
get_key k end = none
get_key k (field j w rest) = if j == k then some w else get_key k rest
