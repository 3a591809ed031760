-- ===== src/Json/Strict.antt =====
-- `_reject_duplicate_keys` and `strict_json_loads` of src/zsec_shield/util.py. The json module calls
-- the hook on the pairs of each object, innermost first, and `parse_constant` on the words NaN, Infinity and
-- -Infinity, but not on a number that is too large for a float.
-- Which of several faults of one document is reported is not told apart.
use zsec_shield.Prelude.{
  ℕ, false, ◌≡◌, refl, ap, subst, sym, ◌∙◌, ◌↔◌, ◌||◌, Option, none, some, String, List, arith,
  str_eq, leb_text, if◌then◌else◌,
}
use mathlib.Core.Option
use zsec_shield.Json.{
  Json, null, bool, int, negative, float, constant, text, array, object, Items, nil, cons, Fields,
  end, field, has_key,
}

-- `result[key] = value` for a key that is not in `result`
unfoldable pub insert_field : String → Json → Fields → Fields
insert_field k v end = field k v end
insert_field k v (field j w fs) =
    let rest = insert_field k v fs in
    if leb_text k j then field k v (field j w fs) else field j w rest

unfoldable pub add_field : String → Json → Fields → Option Fields
unfolding insert_field has_key
add_field k v fs = if has_key k fs then none else some (insert_field k v fs)

abbrev then_array : Option Items → Option Json
then_array none = none
then_array (some vs) = some (array vs)

abbrev then_object : Option Fields → Option Json
then_object none = none
then_object (some fs) = some (object fs)

abbrev both_items : Option Json → Option Items → Option Items
both_items (some v) (some vs) = some (cons v vs)
both_items _ _ = none

abbrev both_fields : String → Option Json → Option Fields → Option Fields
both_fields k (some v) (some fs) = add_field k v fs
both_fields k _ _ = none

-- The hooks over a whole document as it was written; `none` is the FeedError.
unfoldable mutual
  unfolding add_field

  pub build : Json → Option Json
  build (array vs) = then_array (build_items vs)
  build (object fs) = then_object (build_fields fs)
  build (constant c) = none
  build v = some v

  pub build_items : Items → Option Items
  build_items nil = some nil
  build_items (cons v vs) = both_items (build v) (build_items vs)

  pub build_fields : Fields → Option Fields
  build_fields end = some end
  build_fields (field k v fs) = both_fields k (build v) (build_fields fs)

-- A document in which no object has a key twice and which holds none of the words NaN, Infinity and -Infinity.
mutual
  pub IsClean : Json → Type 0
  IsClean (array vs) = AllClean vs
  IsClean (object fs) = FieldsClean fs
  IsClean (constant c) = ⊥
  IsClean v = Unit

  pub AllClean : Items → Type 0
  AllClean nil = Unit
  AllClean (cons v vs) = IsClean v × AllClean vs

  pub FieldsClean : Fields → Type 0
  FieldsClean end = Unit
  FieldsClean (field k v fs) = IsClean v × (has_key k fs ≡ false) × FieldsClean fs

has_key-insert :
    (j k : String) (v : Json) (fs : Fields)
    → has_key j (insert_field k v fs) ≡ (str_eq k j || has_key j fs)
unfolding has_key insert_field
has_key-insert j k v end = refl
has_key-insert j k v (field i w fs) = ground (arith, has_key-insert j k v fs)

both_fields-some :
    (k : String) (o : Option Json) (p : Option Fields) (gs : Fields)
    → both_fields k o p ≡ some gs
    → (v : Json) × (fs : Fields) × (o ≡ some v)
      × (p ≡ some fs)
      × (has_key k fs ≡ false)
      × (gs ≡ insert_field k v fs)
unfolding add_field
both_fields-some k none p gs h = cc
both_fields-some k (some v) none gs h = cc
both_fields-some k (some v) (some fs) gs h = (v, fs, refl, refl, ground arith, ground arith)

-- The object read has a key exactly when the object as written has it.
has_key-build :
    (j : String) (fs gs : Fields) → build_fields fs ≡ some gs → has_key j gs ≡ has_key j fs
unfolding build_fields has_key
has_key-build j end gs h =
    subst (λ (g : Fields). has_key j g ≡ false) (Option.some-injective end gs h) refl
has_key-build j (field k v fs) gs h =
    let (w, hs, ev, ef, new, eq) = both_fields-some k (build v) (build_fields fs) gs h in
    rw eq (cc (has_key-insert j k w hs, has_key-build j fs hs ef))

both_items-some :
    (o : Option Json) (p : Option Items) (ws : Items)
    → both_items o p ≡ some ws
    → (v : Json) × (vs : Items) × (o ≡ some v) × (p ≡ some vs)
both_items-some none p ws h = cc
both_items-some (some v) none ws h = cc
both_items-some (some v) (some vs) ws h = (v, vs, refl, refl)

then_array-some :
    (o : Option Items) (w : Json) → then_array o ≡ some w → (vs : Items) × (o ≡ some vs)
then_array-some none w h = cc
then_array-some (some vs) w h = (vs, refl)

then_object-some :
    (o : Option Fields) (w : Json) → then_object o ≡ some w → (fs : Fields) × (o ≡ some fs)
then_object-some none w h = cc
then_object-some (some fs) w h = (fs, refl)

mutual
  unfolding build build_items build_fields IsClean AllClean FieldsClean

  clear_of_build : (v w : Json) → build v ≡ some w → IsClean v
  clear_of_build (array vs) w h =
      let (ws, e) = then_array-some (build_items vs) w h in clear_of_items vs ws e
  clear_of_build (object fs) w h =
      let (gs, e) = then_object-some (build_fields fs) w h in clear_of_fields fs gs e
  clear_of_build (constant c) w h = cc
  clear_of_build null w h = tt
  clear_of_build (bool _) w h = tt
  clear_of_build (int _) w h = tt
  clear_of_build (negative _) w h = tt
  clear_of_build (float _) w h = tt
  clear_of_build (text _) w h = tt

  clear_of_items : (vs ws : Items) → build_items vs ≡ some ws → AllClean vs
  clear_of_items nil ws h = tt
  clear_of_items (cons v vs) ws h =
      let (u, us, ev, es) = both_items-some (build v) (build_items vs) ws h in
      (clear_of_build v u ev, clear_of_items vs us es)

  clear_of_fields : (fs gs : Fields) → build_fields fs ≡ some gs → FieldsClean fs
  clear_of_fields end gs h = tt
  clear_of_fields (field k v fs) gs h =
      let (w, hs, ev, ef, new, eq) = both_fields-some k (build v) (build_fields fs) gs h in
      (clear_of_build v w ev, sym (has_key-build k fs hs ef) ∙ new, clear_of_fields fs hs ef)

mutual
  unfolding build build_items build_fields IsClean AllClean FieldsClean add_field

  build_of_clear : (v : Json) → IsClean v → (w : Json) × (build v ≡ some w)
  build_of_clear (array vs) h = let (ws, e) = items_of_clear vs h in (array ws, ap then_array e)
  build_of_clear (object fs) h = let (gs, e) = fields_of_clear fs h in (object gs, ap then_object e)
  build_of_clear (constant c) h = absurd h
  build_of_clear null h = (null, refl)
  build_of_clear (bool b) h = (bool b, refl)
  build_of_clear (int n) h = (int n, refl)
  build_of_clear (negative n) h = (negative n, refl)
  build_of_clear (float s) h = (float s, refl)
  build_of_clear (text s) h = (text s, refl)

  items_of_clear : (vs : Items) → AllClean vs → (ws : Items) × (build_items vs ≡ some ws)
  items_of_clear nil h = (nil, refl)
  items_of_clear (cons v vs) h =
      let (w, e) = build_of_clear v h.0 in
      let (ws, es) = items_of_clear vs h.1 in (cons w ws, rw (e, es))

  fields_of_clear : (fs : Fields) → FieldsClean fs → (gs : Fields) × (build_fields fs ≡ some gs)
  fields_of_clear end h = (end, refl)
  fields_of_clear (field k v fs) h =
      let (w, e) = build_of_clear v h.0 in
      let (gs, es) = fields_of_clear fs h.2 in
      (insert_field k w gs, rw (e, es, has_key-build k fs gs es, h.1))

-- The hooks accept a document exactly when no object in it, at any depth, has a key twice and none of
-- the constants NaN, Infinity and -Infinity stands in it; a number such as 1e999 is no such constant.
pub build_exact : (v : Json) → IsClean v ↔ ((w : Json) × (build v ≡ some w))
build_exact v = (build_of_clear v, λ h. clear_of_build v h.0 h.1)

-- The decoders, as parameters: UTF-8, and the json parser before its hooks.
pub record Decoder : Type 0 where
  pub utf8 : List ℕ → Option String
  pub parse : String → Option Json

abbrev pub bind_option {ℓ κ} : {A : Type ℓ} {B : Type κ} → Option A → (A → Option B) → Option B
bind_option none f = none
bind_option (some a) f = f a

-- `strict_json_loads` on bytes; `none` is the FeedError
unfoldable pub strict_json_loads : Decoder → List ℕ → Option Json
unfolding build
strict_json_loads d raw = bind_option (d.utf8 raw) λ written. bind_option (d.parse written) build
