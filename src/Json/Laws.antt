-- ===== src/Json/Laws.antt =====
-- The laws of reads and writes of a JSON dict.
use meshonator.Base.{String, ◌≡◌, refl, none, some, arith, ◌==◌, if◌then◌else◌, string_eq}
use meshonator.Json.{Value, Fields, end, field, get, set, pop, IsWf, IsWfFields}

pub get-set :
    (j k : String) (v : Value) (d : Fields)
    → get j (set k v d) ≡ (if j == k then some v else get j d)
unfolding get set
get-set j k v end = ground arith
get-set j k v (field i w d) = ground (arith, get-set j k v d)

pub get-set_self : (k : String) (v : Value) (d : Fields) → get k (set k v d) ≡ some v
get-set_self k v d = ground (arith, get-set k k v d)

pub get-pop : (j k : String) (d : Fields) → get j (pop k d) ≡ (if j == k then none else get j d)
unfolding get pop
get-pop j k end = ground arith
get-pop j k (field i w d) = ground (arith, get-pop j k d)

-- writing what is there changes nothing
pub set_same : (k : String) (v : Value) (d : Fields) → get k d ≡ some v → set k v d ≡ d
unfolding get set
set_same k v end h = cc
set_same k v (field j w d) h = ground (arith, set_same k v d)

pub set-IsWf :
    (k : String) (v : Value) (d : Fields) → IsWf v → IsWfFields d → IsWfFields (set k v d)
unfolding get set
set-IsWf k v end wv wd = (wv, refl, tt)
set-IsWf k v (field j w d) wv (wj, fresh, wd) =
    ground (arith, set-IsWf k v d wv wd, get-set j k v d)

pop-IsWf : (k : String) (d : Fields) → IsWfFields d → IsWfFields (pop k d)
unfolding get pop
pop-IsWf k end wd = tt
pop-IsWf k (field j w d) (wj, fresh, wd) = ground (arith, pop-IsWf k d wd, get-pop j k d)

-- what a well-formed dict holds is well formed
pub get-IsWf : (k : String) (d : Fields) {v : Value} → IsWfFields d → get k d ≡ some v → IsWf v
unfolding get
get-IsWf k end wd h = cc
get-IsWf k (field j w d) {v} (wj, fresh, wd) h = ground (arith, get-IsWf k d {v = v} wd)
