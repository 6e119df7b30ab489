-- ===== src/Tests/Evaluated.antt =====
-- The definitions evaluated at concrete inputs.
use presto_on_k8s_operator.Decimal.{format_int, format_nat, digits}
use presto_on_k8s_operator.Maps.{lookup}
use presto_on_k8s_operator.Prelude.{◌≡◌, refl, [], ◌∷◌, none}
use presto_on_k8s_operator.Prelude.Int.{negsuc}
use presto_on_k8s_operator.Sorting.{sort_strings, insert_sorted}
use presto_on_k8s_operator.Strings.{
  split, split_by, cons_first, fields, drop_empty, is_space, write_lines,
}
use presto_on_k8s_operator.Text.{codes, ◌==◌, text_leb}
use presto_on_k8s_operator.Desired.CoreSite.{core_site}
use presto_on_k8s_operator.Strings.Laws.{count_by}
use presto_on_k8s_operator.Utils.Splitting.{is}
use presto_on_k8s_operator.Utils.{
  get_properties, write_properties, get_properties_fields, split_dynamic_args, two_parts,
  split_dynamic_configs_args,
}

properties_sorted :
    get_properties ((codes "b", codes "2") ∷ (codes "a", codes "1") ∷ []) ≡ codes "a=1\nb=2\n"
unfolding get_properties write_properties sort_strings insert_sorted lookup ◌==◌ text_leb
properties_sorted = refl

args_split : split_dynamic_args (codes "x=1") ≡ (codes "x", codes "1", none)
unfolding split_dynamic_args two_parts split split_by cons_first
args_split = refl

words_listed : get_properties_fields (codes " a  b ") ≡ codes "a\nb\n"
unfolding get_properties_fields fields drop_empty split_by cons_first is_space write_lines
words_listed = refl

configs_split : split_dynamic_configs_args (codes "a:1;b") ≡ codes "a:1" ∷ codes "b" ∷ []
unfolding split_dynamic_configs_args split split_by cons_first
configs_split = refl

number_printed : format_int (negsuc 119) ≡ codes "-120"
unfolding format_int format_nat digits
number_printed = refl

-- The core site has a place for each of a bucket, an id, a key and a region.
core_site_places : count_by (is b'%') core_site ≡ 4
unfolding core_site count_by write_lines
core_site_places = refl
