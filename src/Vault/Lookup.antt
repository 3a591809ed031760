-- ===== src/Vault/Lookup.antt =====
-- A dict's entries, by key.
use zsec_shield.Prelude.{◌≡◌, refl, arith, false, none, some, String, str_eq, eq_iff}
use zsec_shield.Json.{Json, Fields, end, field, get_field}
use zsec_shield.Json.Strict.{insert_field}
use zsec_shield.Zba.{without}

pub get_field-without : (k : String) (fs : Fields) → get_field k (without k fs) ≡ none
unfolding get_field without
get_field-without k end = refl
get_field-without k (field j w fs) = ground (arith, get_field-without k fs)

pub get_field-insert_new :
    (k : String) (v : Json) (fs : Fields)
    → get_field k fs ≡ none
    → get_field k (insert_field k v fs) ≡ some v
unfolding get_field insert_field
get_field-insert_new k v end h = ground (arith, eq_iff k k)
get_field-insert_new k v (field j w fs) h = ground (arith, eq_iff k k, get_field-insert_new k v fs)

pub without-insert :
    (k : String) (v : Json) (fs : Fields) → without k (insert_field k v fs) ≡ without k fs
unfolding without insert_field
without-insert k v end = ground (arith, eq_iff k k)
without-insert k v (field j w fs) = ground (arith, eq_iff k k, without-insert k v fs)

pub without_twice : (k : String) (fs : Fields) → without k (without k fs) ≡ without k fs
unfolding without
without_twice k end = refl
without_twice k (field j w fs) = ground (arith, without_twice k fs)

pub get_field-without_other :
    (k j : String) (fs : Fields) → str_eq k j ≡ false → get_field j (without k fs) ≡ get_field j fs
unfolding get_field without
get_field-without_other k j end h = refl
get_field-without_other k j (field i w fs) h =
    ground (arith, eq_iff i k, eq_iff i j, eq_iff k j, get_field-without_other k j fs h)

pub get_field-insert_other :
    (k j : String) (v : Json) (fs : Fields)
    → str_eq k j ≡ false
    → get_field j (insert_field k v fs) ≡ get_field j fs
unfolding get_field insert_field
get_field-insert_other k j v end h = ground (arith, h)
get_field-insert_other k j v (field i w fs) h = ground (arith, h, get_field-insert_other k j v fs h)
