-- ===== src/Proto/Json.antt =====
-- What encoding/json reads from and writes to a text: a tree of values. The layer between texts and
-- trees is the standard library's, so `[]byte` is a tree, or a text in which json finds none.
-- An object's keys are those of the struct tags; a repeated key counts by its last value, as json
-- counts it.
use rtvbp_go.Common.{String, Bool, Option, none, some, str_eq, if◌then◌else◌}
use rtvbp_go.Common.Int.{ℤ, pos}

mutual
  pub data Json : Type 0 where
    null : Json
    bool : Bool → Json
    num : ℤ → Json
    str : String → Json
    arr : Items → Json
    obj : Fields → Json

  pub data Items : Type 0 where
    nil : Items
    item : Json → Items → Items

  pub data Fields : Type 0 where
    end : Fields
    field : String → Json → Fields → Fields

pub data Bytes : Type 0 where
  text_of : Json → Bytes
  junk : String → Bytes

-- The last value of a key.
unfoldable pub find : String → Fields → Option Json
find k end = none
find k (field j v fs) =
    let here = if str_eq j k then some v else none in
    elim (find k fs) [ none ↦ here | some w ↦ some w ]

-- A field tagged `omitempty` that holds nil.
abbrev pub omit : String → Option Json → Fields → Fields
omit k none fs = fs
omit k (some v) fs = field k v fs

-- Reading a string field: a missing key and `null` leave the zero value.
abbrev pub string_field : Option Json → Option String
string_field none = some ""
string_field (some null) = some ""
string_field (some (str s)) = some s
string_field (some _) = none

-- Reading a field of an integer type.
abbrev pub int_field : Option Json → Option ℤ
int_field none = some (pos 0)
int_field (some null) = some (pos 0)
int_field (some (num z)) = some z
int_field (some _) = none

-- Reading a field of type `any`: `null` and a missing key are nil.
abbrev pub any_field : Option Json → Option Json
any_field none = none
any_field (some null) = none
any_field (some j) = some j
