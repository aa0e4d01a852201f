-- ===== src/Json.antt =====
-- The JSON values that cross the program's boundaries, as Python reads them: an object is a dict,
-- an array a list. A finite float is kept by its `repr`, which Python reads back exactly.
use cbrain.Prelude.{
  String, ℕ, Option, none, some, Bool, str_eq, if◌then◌else◌, List, [], ◌∷◌, ◌≡◌, refl, arith,
  eq_iff,
}

mutual
  pub data Json : Type 0 where
    null : Json
    bool : Bool → Json
    -- an `int`, and the negative `-(n + 1)`
    int : ℕ → Json
    negative : ℕ → Json
    float : String → Json
    -- NaN or an infinity, which Python's `json` reads and writes too unless it is told not to
    non_finite : Json
    text : String → Json
    arr : Items → Json
    obj : Fields → Json

  pub data Items : Type 0 where
    nil : Items
    cons : Json → Items → Items

  pub data Fields : Type 0 where
    end : Fields
    field : String → Json → Fields → Fields

-- `d.get(k)`
unfoldable pub get : String → Fields → Option Json
get k Fields.end = none
get k (Fields.field j v d) = if str_eq j k then some v else get k d

-- The keys of an object, in order.
abbrev pub keys : Fields → List String
keys Fields.end = []
keys (Fields.field k v d) = k ∷ keys d

-- `d[k] = v`: a known key keeps its place.
unfoldable pub put : String → Json → Fields → Fields
put k v Fields.end = Fields.field k v Fields.end
put k v (Fields.field j w d) =
    if str_eq j k then Fields.field j v d else Fields.field j w (put k v d)

pub get-put :
    (k j : String) (v : Json) (d : Fields)
    → get j (put k v d) ≡ (if str_eq k j then some v else get j d)
unfolding get put
get-put k j v Fields.end = refl
get-put k j v (Fields.field i w d) =
    ground (arith, eq_iff k j, eq_iff i k, eq_iff i j, get-put k j v d)
