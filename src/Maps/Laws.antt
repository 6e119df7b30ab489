-- ===== src/Maps/Laws.antt =====
-- Laws of lookup and assignment.
use mathlib.Core.List.{append_cancel_left}
use presto_on_k8s_operator.Maps.{StringMap, lookup, insert, assign_all}
use presto_on_k8s_operator.Prelude.{
  ◌≡◌, refl, sym, ◌∙◌, ◌≢◌, Option, none, some, [], ◌∷◌, ◌++◌, append-nil, append_assoc, arith,
  if◌then◌else◌, or_else,
}
use presto_on_k8s_operator.Text.{Text, ◌==◌, ==_iff, ==_refl}

-- No key is listed twice.
abbrev pub NodupKeys : StringMap → Type 0
NodupKeys [] = Unit
NodupKeys ((k, _) ∷ m) = (lookup k m ≡ none) × NodupKeys m

pub lookup-insert :
    (key asked value : Text) (m : StringMap)
    → lookup asked (insert key value m) ≡ (if key == asked then some value else lookup asked m)
unfolding lookup insert
lookup-insert key asked value [] = refl
lookup-insert key asked value (entry ∷ rest) = ground (
  arith,
  lookup-insert key asked value rest,
  ==_iff entry.0 key,
  ==_iff entry.0 asked,
  ==_iff key asked,
)

-- Assignment of a new key adds it at the end.
pub insert-NodupKeys : (k v : Text) (m : StringMap) → NodupKeys m → NodupKeys (insert k v m)
unfolding insert lookup
insert-NodupKeys k v [] h = (refl, tt)
insert-NodupKeys k v ((i, w) ∷ m) h =
    ground (arith, ==_iff i k, insert-NodupKeys k v m h.1, lookup-insert k i v m, ==_iff k i)

-- Each key of the assigned map is found under the prefix; a key that it lacks keeps its old value.
pub lookup-assign_all :
    (p k : Text) (m out : StringMap)
    → NodupKeys m
    → lookup (p ++ k) (assign_all p m out) ≡ or_else (lookup k m) (lookup (p ++ k) out)
unfolding lookup assign_all
lookup-assign_all p k [] out h = refl
lookup-assign_all p k ((i, w) ∷ m) out h = ground (
  arith,
  lookup-assign_all p k m (insert (p ++ i) w out) h.1,
  lookup-insert (p ++ i) (p ++ k) w out,
  ==_iff i k,
  ==_iff (p ++ i) (p ++ k),
  append_cancel_left p i k,
)

-- Other keys keep what they had.
pub lookup-assign_all_ne :
    (p j : Text) (m out : StringMap)
    → ((k : Text) → p ++ k ≢ j)
    → lookup j (assign_all p m out) ≡ lookup j out
unfolding assign_all
lookup-assign_all_ne p j [] out h = refl
lookup-assign_all_ne p j ((i, w) ∷ m) out h = ground (
  arith,
  lookup-assign_all_ne p j m (insert (p ++ i) w out) h,
  lookup-insert (p ++ i) j w out,
  ==_iff (p ++ i) j,
  h i,
)

pub assign_all-NodupKeys :
    (p : Text) (m out : StringMap) → NodupKeys out → NodupKeys (assign_all p m out)
unfolding assign_all
assign_all-NodupKeys p [] out h = h
assign_all-NodupKeys p ((i, w) ∷ m) out h =
    assign_all-NodupKeys p m _ (insert-NodupKeys (p ++ i) w out h)

insert_new : (k v : Text) (m : StringMap) → lookup k m ≡ none → insert k v m ≡ m ++ (k, v) ∷ []
unfolding insert lookup
insert_new k v [] h = refl
insert_new k v ((i, w) ∷ m) h = ground (arith, insert_new k v m)

lookup-append : (k : Text) (m n : StringMap) → lookup k (m ++ n) ≡ or_else (lookup k m) (lookup k n)
unfolding lookup
lookup-append k [] n = refl
lookup-append k ((i, w) ∷ m) n = ground (arith, lookup-append k m n)

assign_all-append :
    (m out : StringMap)
    → NodupKeys m
    → ((k : Text) → lookup k m ≢ none → lookup k out ≡ none)
    → assign_all [] m out ≡ out ++ m
unfolding assign_all lookup
assign_all-append [] out h fresh = sym (append-nil out)
assign_all-append ((i, w) ∷ m) out h fresh =
    assign_all-append m (insert i w out) h.1
      (λ k found. ground (arith, fresh k, lookup-insert i k w out, ==_iff i k))
    ∙ rw (insert_new i w out (fresh i (ground (arith, ==_refl i))))
        (append_assoc out ((i, w) ∷ []) m)

-- Copying a map entry by entry into an empty one gives the map.
pub assign_all-nil : (m : StringMap) → NodupKeys m → assign_all [] m [] ≡ m
assign_all-nil m h = assign_all-append m [] h λ k _. unfold lookup in refl

pub lookup-insert_ne : (k j v : Text) (m : StringMap) → k ≢ j → lookup j (insert k v m) ≡ lookup j m
lookup-insert_ne k j v m h = ground (arith, lookup-insert k j v m, ==_iff k j)

pub lookup-insert_self :
    (key value : Text) (m : StringMap) → lookup key (insert key value m) ≡ some value
lookup-insert_self key value m = ground (arith, ==_refl key, lookup-insert key key value m)

-- Assigning to keys that the map does not hold yet.
pub lookup-assign_all_fresh :
    (p k : Text) (m out : StringMap)
    → NodupKeys m
    → lookup (p ++ k) out ≡ none
    → lookup (p ++ k) (assign_all p m out) ≡ lookup k m
lookup-assign_all_fresh p k m out h fresh =
    lookup-assign_all p k m out h ∙ rw fresh (or_else_none (lookup k m))
  where
    or_else_none : (o : Option Text) → or_else o none ≡ o
    or_else_none none = refl
    or_else_none (some v) = refl
