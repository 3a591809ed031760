-- ===== src/Json.antt =====
-- JSON values, and `strict_json_loads` of src/zsec_shield/util.py. The decoder and the encoders of Python's
-- json module are parameters. A dict is kept as its entries in key order: no code modelled here reads
-- the insertion order, and every encoder that it calls sorts the keys.
pub mod Strict
use zsec_shield.Prelude.{
  ℕ, Bool, true, false, Option, none, some, String, List, [], ◌∷◌, ◌&&◌, ◌||◌, str_eq,
  if◌then◌else◌, all, text_in,
}

-- `int n` is n and `negative n` is -(n + 1). A float is kept as its text, also where Python
-- reads it as an infinity, as 1e999; `constant` is one of the words NaN, Infinity and -Infinity.
mutual
  pub data Json : Type 0 where
    null : Json
    bool : Bool → Json
    int : ℕ → Json
    negative : ℕ → Json
    float : String → Json
    constant : String → Json
    text : String → Json
    array : Items → Json
    object : Fields → Json

  pub data Items : Type 0 where
    nil : Items
    cons : Json → Items → Items

  pub data Fields : Type 0 where
    end : Fields
    field : String → Json → Fields → Fields

-- `value.get(key)`
unfoldable pub get_field : String → Fields → Option Json
get_field k end = none
get_field k (field j v fs) = if str_eq j k then some v else get_field k fs

-- `key in value`
unfoldable pub has_key : String → Fields → Bool
has_key k end = false
has_key k (field j v fs) = str_eq j k || has_key k fs

unfoldable pub field_names : Fields → List String
field_names end = []
field_names (field k v fs) = k ∷ field_names fs

unfoldable pub item_list : Items → List Json
item_list nil = []
item_list (cons v vs) = v ∷ item_list vs

-- `set(value) == expected`
unfoldable pub has_exact_keys : List String → Fields → Bool
unfolding field_names
has_exact_keys expected fs =
    let present = field_names fs in
    all (λ k. text_in k expected) present && all (λ k. text_in k present) expected

-- `value == text` for a text
unfoldable pub is_text : String → Json → Bool
is_text s (text t) = str_eq t s
is_text s _ = false
