-- ===== src/Maps.antt =====
-- A Go `map[string]string`: an association list in the order in which a `range` visits it, which
-- Go leaves open. A key stands in it once (`NodupKeys`).
use presto_on_k8s_operator.Prelude.{Option, none, some, List, [], ◌∷◌, ◌++◌, map, if◌then◌else◌}
use presto_on_k8s_operator.Text.{Text, ◌==◌}
pub mod Laws
pub mod Held
pub mod Order
pub mod Assigned
pub mod Unordered

abbrev pub StringMap : Type 0
StringMap = List (Text × Text)

abbrev pub keys : StringMap → List Text
keys = map (λ e. e.0)

-- `m[k]`
unfoldable pub lookup : Text → StringMap → Option Text
lookup key [] = none
lookup key (entry ∷ rest) =
    let deeper = lookup key rest in if entry.0 == key then some entry.1 else deeper

-- `m[k] = v`
unfoldable pub insert : Text → Text → StringMap → StringMap
insert key value [] = (key, value) ∷ []
insert key value (entry ∷ rest) =
    let changed = insert key value rest in
    if entry.0 == key then (key, value) ∷ rest else entry ∷ changed

-- A map that may be nil is read as an empty one.
abbrev pub entries : Option StringMap → StringMap
entries none = []
entries (some m) = m

-- `for key, value := range m { out[prefix + key] = value }`
unfoldable pub assign_all : Text → StringMap → StringMap → StringMap
assign_all prefix [] out = out
assign_all prefix ((k, v) ∷ m) out = assign_all prefix m (insert (prefix ++ k) v out)
