-- ===== src/Tests/TextExamples.antt =====
-- Texts and maps at concrete inputs.
use presto_on_k8s_operator.Maps.{StringMap, keys, lookup}
use presto_on_k8s_operator.Maps.Laws.{NodupKeys}
use presto_on_k8s_operator.Maps.Assigned.{Agree}
use presto_on_k8s_operator.Prelude.{map, ◌≢◌, ◌≡◌, refl, ◌↔◌, ◌++◌, All, [], ◌∷◌, none, some}
use presto_on_k8s_operator.Strings.{fields, split}
use presto_on_k8s_operator.Strings.Laws.{Lacks, count_by}
use presto_on_k8s_operator.Text.{Text, codes, ◌==◌}
use presto_on_k8s_operator.Utils.{
  get_properties, get_properties_fields, split_dynamic_args, split_dynamic_configs,
}
use presto_on_k8s_operator.Utils.Properties.{
  IsWord, fields-get_properties_fields, is_newline, line, split-get_properties,
}
use presto_on_k8s_operator.Sorting.{sort_strings}
use presto_on_k8s_operator.Utils.Readable.{IsReadable, get_properties-Agree}
use presto_on_k8s_operator.Utils.Splitting.{is, split_dynamic_iff, split_dynamic_refused}

split_dynamic_iff_example :
    ((split_dynamic_args (codes "a=b") ≡ (codes "a", codes "b", none)) ↔ (
      (codes "a=b" ≡ codes "a" ++ b'=' ∷ codes "b")
      × Lacks (is b'=') (codes "a")
      × Lacks (is b'=') (codes "b")))
    × ((split_dynamic_configs (codes "a=b") ≡ (codes "a", codes "b", none)) ↔ (
        (codes "a=b" ≡ codes "a" ++ b':' ∷ codes "b")
        × Lacks (is b':') (codes "a")
        × Lacks (is b':') (codes "b")))
split_dynamic_iff_example = split_dynamic_iff (codes "a=b") (codes "a") (codes "b")

split_dynamic_refused_example :
    ((count_by (is b'=') (codes "uri:http://x") ≢ 1)
      ↔ ((e : Text) × (split_dynamic_args (codes "uri:http://x") ≡ ([], [], some e))))
    × ((count_by (is b':') (codes "uri:http://x") ≢ 1)
        ↔ ((e : Text) × (split_dynamic_configs (codes "uri:http://x") ≡ ([], [], some e))))
split_dynamic_refused_example = split_dynamic_refused (codes "uri:http://x")

abbrev first_entry : Text × Text
first_entry = (codes "b", codes "2")

abbrev second_entry : Text × Text
second_entry = (codes "a", codes "1")

abbrev properties : StringMap
properties = first_entry ∷ second_entry ∷ []

abbrev swapped : StringMap
swapped = second_entry ∷ first_entry ∷ []

properties-NodupKeys : NodupKeys properties
unfolding lookup ◌==◌
properties-NodupKeys = (refl, (refl, tt))

swapped-NodupKeys : NodupKeys swapped
unfolding lookup ◌==◌
swapped-NodupKeys = (refl, (refl, tt))

properties-IsReadable : IsReadable properties
unfolding lookup ◌==◌
properties-IsReadable =
    (((refl, tt), (refl, (refl, (refl, tt)))), (((refl, tt), (refl, (refl, (refl, tt)))), tt))

swapped-IsReadable : IsReadable swapped
unfolding lookup ◌==◌
swapped-IsReadable =
    (((refl, tt), (refl, (refl, (refl, tt)))), (((refl, tt), (refl, (refl, (refl, tt)))), tt))

get_properties-Agree_example :
    (get_properties properties ≡ get_properties swapped) ↔ Agree properties swapped
get_properties-Agree_example =
    get_properties-Agree properties swapped properties-NodupKeys swapped-NodupKeys
      properties-IsReadable swapped-IsReadable

fields-get_properties_fields_example :
    (split (get_properties_fields (codes " a  b")) b'\n' ≡ fields (codes " a  b") ++ [] ∷ [])
    × (fields (get_properties_fields (codes " a  b")) ≡ fields (codes " a  b"))
    × All IsWord (fields (codes " a  b"))
fields-get_properties_fields_example = fields-get_properties_fields (codes " a  b")

-- No entry of the map holds a line feed.
properties-Lacks : All (λ k. Lacks is_newline (line properties k)) (keys properties)
unfolding lookup ◌==◌
properties-Lacks = ((refl, (refl, (refl, tt))), ((refl, (refl, (refl, tt))), tt))

split-get_properties_example :
    split (get_properties properties) b'\n'
    ≡ map (line properties) (sort_strings (keys properties)) ++ [] ∷ []
split-get_properties_example = split-get_properties properties properties-Lacks
