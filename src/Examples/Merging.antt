-- ===== src/Examples/Merging.antt =====
-- Runs of the merge of dynamic/apply/apply.go.
use metac.Prelude.{
  ℕ, String, false, ◌≡◌, refl, none, some, List, [], ◌∷◌, Dict, Distinct, lookup, has, insert,
  remove, if◌then◌else◌, arith, Memᴰ,
}
use metac.Prelude.Int.{pos}
use metac.Prelude.Results.{ok}
use metac.Value.{Value, int, str, object, or_null}
use metac.Value.Format.{format}
use metac.Value.Depth.{depth}
use metac.Apply.{
  merge_step, merge_map, merge_entries, delete_unwanted, add_items, string_merge_key, item_key,
  make_map_from_list, merge_list_map, merge, merge_objects,
}
use metac.Apply.Total.{Succeeds, merge-IsTotal}
use metac.Apply.Fields.{merge_value, merge_objects_three_way}
use metac.Apply.Plain.{Plain}
use metac.Apply.Stable.{SameShape, merge_objects_stable}
use metac.Apply.ListMap.{IsMerged, merge_list_map_three_way}

abbrev port : ℕ → String → Value
port n protocol = object (("port", int (pos n)) ∷ ("protocol", str protocol) ∷ [])

-- The observed spec has a field that was applied, and one that another wrote.
abbrev observed_spec : Dict Value
observed_spec = ("paused", str "no") ∷ ("replicas", int (pos 1)) ∷ ("node", str "n1") ∷ []

abbrev last_spec : Dict Value
last_spec = ("paused", str "no") ∷ ("replicas", int (pos 1)) ∷ []

abbrev desired_spec : Dict Value
desired_spec = ("replicas", int (pos 3)) ∷ []

abbrev merged_spec : Dict Value
merged_spec = ("replicas", int (pos 3)) ∷ ("node", str "n1") ∷ []

merge_spec : merge_objects observed_spec last_spec desired_spec ≡ ok merged_spec
unfolding merge_objects merge merge_step merge_map merge_entries delete_unwanted depth lookup has
    insert remove
merge_spec = refl

merge-IsTotal_example :
    Succeeds (merge 2 (object observed_spec) (object last_spec) (object desired_spec))
merge-IsTotal_example =
    merge-IsTotal 2 (object observed_spec) (object last_spec) (object desired_spec)
      (unfold depth in omega arith)

desired-Distinct : Distinct desired_spec
unfolding has
desired-Distinct = (refl, tt)

merge_objects_three_way_example :
    (m : Dict Value) × (merge_objects observed_spec last_spec desired_spec ≡ ok m)
    × ((k : String) (v : Value)
        → lookup k desired_spec ≡ some v
        → (u : Value) × (merge_value (lookup k observed_spec) (lookup k last_spec) v ≡ ok u)
          × (lookup k m ≡ some u))
    × ((k : String)
        → has k desired_spec ≡ false
        → lookup k m ≡ (if has k last_spec then none else lookup k observed_spec))
merge_objects_three_way_example =
    merge_objects_three_way observed_spec last_spec desired_spec desired-Distinct

Plain-spec : Plain (object desired_spec)
unfolding Plain has
Plain-spec = ((refl, tt), (tt, tt))

same_shape : SameShape (object observed_spec) (object desired_spec)
unfolding SameShape lookup
same_shape = (tt, (tt, tt))

merge_objects_stable_example : merge_objects merged_spec desired_spec desired_spec ≡ ok merged_spec
merge_objects_stable_example =
    merge_objects_stable observed_spec last_spec desired_spec merged_spec Plain-spec same_shape
      merge_spec

abbrev no_items : Dict Value
no_items = []

abbrev http : Value
http = port 80 "TCP"

abbrev dns_tcp : Value
dns_tcp = port 53 "TCP"

observed_ports : make_map_from_list "port" (http ∷ []) ≡ ok (("80", http) ∷ [])
unfolding make_map_from_list add_items item_key string_merge_key lookup insert format
observed_ports = refl

last_ports : make_map_from_list "port" [] ≡ ok []
unfolding make_map_from_list add_items
last_ports = refl

desired_ports : make_map_from_list "port" (dns_tcp ∷ []) ≡ ok (("53", dns_tcp) ∷ [])
unfolding make_map_from_list add_items item_key string_merge_key lookup insert format
desired_ports = refl

merge_list_map_three_way_example :
    (out : List Value) × (merge_list_map (merge 3) "port" (http ∷ []) [] (dns_tcp ∷ []) ≡ ok out)
    × ((t : String) (v : Value)
        → lookup t (("53", dns_tcp) ∷ []) ≡ some v
        → (u : Value) × (merge 3
              (or_null (lookup t (("80", http) ∷ [])))
              (or_null (lookup t no_items))
              v
            ≡ ok u)
          × Memᴰ u out)
    × ((t : String) (v : Value)
        → has t (("53", dns_tcp) ∷ []) ≡ false
        → has t no_items ≡ false
        → lookup t (("80", http) ∷ []) ≡ some v
        → Memᴰ v out)
    × ((u : Value) → Memᴰ u out → IsMerged 3 (("80", http) ∷ []) no_items (("53", dns_tcp) ∷ []) u)
merge_list_map_three_way_example =
    merge_list_map_three_way 3 "port" (http ∷ []) [] (dns_tcp ∷ []) observed_ports last_ports
      desired_ports (unfold depth in (omega arith, tt))
