-- ===== src/Apply/Detect.antt =====
-- Which key the lists of maps are merged by.
use metac.Prelude.{
  String, Bool, true, false, ◌&&◌, ◌||◌, ◌≡◌, refl, ◌∙◌, Option, none, some, List, [], ◌∷◌, Dict,
  keys, has, contains, is_some, inl, inr, arith, ◌==◌, eq_iff, Bool-cases, if◌then◌else◌,
}
use metac.Value.{Value, obj, to_dict, entries}
use metac.Apply.{
  keep_common, narrow, scan_items, scan_lists, first_known, known_merge_keys, detect_list_map_key,
}

-- Every item is a map; every item is a map that has the key.
abbrev pub all_maps : List Value → Bool
all_maps [] = true
all_maps (obj fs ∷ items) = all_maps items
all_maps (_ ∷ items) = false

abbrev pub all_have : String → List Value → Bool
all_have k [] = true
all_have k (obj fs ∷ items) = has k (to_dict fs) && all_have k items
all_have k (_ ∷ items) = false

abbrev pub is_nonempty {ℓ} : {A : Type ℓ} → List A → Bool
is_nonempty [] = false
is_nonempty (x ∷ xs) = true

-- The same of several lists.
abbrev pub in_all : (List Value → Bool) → List (List Value) → Bool
in_all p [] = true
in_all p (items ∷ lists) = p items && in_all p lists

abbrev pub in_some : (List Value → Bool) → List (List Value) → Bool
in_some p [] = false
in_some p (items ∷ lists) = p items || in_some p lists

abbrev pub first_such : (String → Bool) → List String → String
first_such p [] = ""
first_such p (k ∷ ks) = if p k then k else first_such p ks

-- There is an item, all items are maps, and all have the key.
abbrev pub is_common : List (List Value) → String → Bool
is_common lists k = in_some is_nonempty lists && in_all (all_have k) lists

contains-keys : (k : String) (m : Dict Value) → contains k (keys m) ≡ has k m
unfolding contains has
contains-keys k [] = refl
contains-keys k ((j, v) ∷ m) = ground (arith, contains-keys k m)

contains-keep_common :
    (k : String) (m : Dict Value) (ks : List String)
    → contains k (keep_common m ks) ≡ (contains k ks && has k m)
unfolding contains keep_common
contains-keep_common k m [] = refl
contains-keep_common k m (j ∷ ks) = elim (Bool-cases (j == k)) [
  | inl e ↦ rw ((eq_iff j k).0 e) (ground (arith, contains-keep_common k m ks))
  | inr e ↦ ground (arith, contains-keep_common k m ks)
]

-- A key is common so far.
abbrev common_so_far : String → Option (List String) → Bool
common_so_far k none = true
common_so_far k (some ks) = contains k ks

common-narrow :
    (k : String) (m : Dict Value) (common : Option (List String))
    → contains k (narrow m common) ≡ (common_so_far k common && has k m)
common-narrow k m none = contains-keys k m
common-narrow k m (some ks) = contains-keep_common k m ks

-- What the scan has found: nothing if an item is no map, and else the keys common to all items.
abbrev Scanned : Option (Option (List String)) → Bool → Bool → (String → Bool) → Type 0
Scanned none maps any p = maps ≡ false
Scanned (some common) maps any p =
    (maps ≡ true) × (is_some common ≡ any) × ((k : String) → common_so_far k common ≡ p k)

Scanned-congr :
    (o : Option (Option (List String))) (maps : Bool) {any any' : Bool} {p p' : String → Bool}
    → any ≡ any'
    → ((k : String) → p k ≡ p' k)
    → Scanned o maps any p
    → Scanned o maps any' p'
Scanned-congr none maps ea ep h = h
Scanned-congr (some common) maps ea ep h = (h.0, h.1 ∙ ea, λ k. h.2 k ∙ ep k)

scan_items_lem :
    (items : List Value) (common : Option (List String))
    → Scanned
        (scan_items items common)
        (all_maps items)
        (is_some common || is_nonempty items)
        (λ k. common_so_far k common && all_have k items)
unfolding scan_items
scan_items_lem [] common = (refl, ground arith, λ k. ground arith)
scan_items_lem (obj fs ∷ items) common =
    Scanned-congr (scan_items items (some (narrow (to_dict fs) common))) (all_maps items)
      {any = true} {any' = is_some common || true}
      {p = λ k. contains k (narrow (to_dict fs) common) && all_have k items}
      {p' = λ k. common_so_far k common && (has k (to_dict fs) && all_have k items)} (ground arith)
      (λ k. ground (arith, common-narrow k (to_dict fs) common))
      (scan_items_lem items (some (narrow (to_dict fs) common)))
scan_items_lem (_ ∷ items) common = refl

scan_lists_lem :
    (lists : List (List Value)) (common : Option (List String))
    → Scanned
        (scan_lists lists common)
        (in_all all_maps lists)
        (is_some common || in_some is_nonempty lists)
        (λ k. common_so_far k common && in_all (all_have k) lists)
unfolding scan_lists
scan_lists_lem [] common = (refl, ground arith, λ k. ground arith)
scan_lists_lem (items ∷ lists) common =
    go (scan_items items common) (scan_items_lem items common) (scan_lists_lem lists)
  where
    go :
        (o : Option (Option (List String)))
        → Scanned o
            (all_maps items)
            (is_some common || is_nonempty items)
            (λ k. common_so_far k common && all_have k items)
        → ((c : Option (List String))
            → Scanned
                (scan_lists lists c)
                (in_all all_maps lists)
                (is_some c || in_some is_nonempty lists)
                (λ k. common_so_far k c && in_all (all_have k) lists))
        → Scanned
            (elim o [ none ↦ none | some c ↦ scan_lists lists c ])
            (all_maps items && in_all all_maps lists)
            (is_some common || (is_nonempty items || in_some is_nonempty lists))
            (λ k. common_so_far k common && (all_have k items && in_all (all_have k) lists))
    go none h rest = rw h
    go (some c) h rest =
        Scanned-congr (scan_lists lists c) (all_maps items && in_all all_maps lists)
          {any = is_some c || in_some is_nonempty lists}
          {any' = is_some common || (is_nonempty items || in_some is_nonempty lists)}
          {p = λ k. common_so_far k c && in_all (all_have k) lists}
          {p' = λ k. common_so_far k common && (all_have k items && in_all (all_have k) lists)}
          (ground (arith, h.1)) (λ k. ground (arith, h.2 k)) (rw h.0 (rest c))

first_known_lem :
    (known : List String) (common : List String) (p : String → Bool)
    → ((k : String) → contains k common ≡ p k)
    → first_known known common ≡ first_such p known
unfolding first_known
first_known_lem [] common p h = refl
first_known_lem (k ∷ known) common p h = rw (h k, first_known_lem known common p h)

contains-entries :
    (common : Option (List String)) (lists : List (List Value)) (k : String)
    → is_some common ≡ in_some is_nonempty lists
    → common_so_far k common ≡ in_all (all_have k) lists
    → contains k (entries common) ≡ is_common lists k
unfolding contains
contains-entries none lists k e h = rw (← e)
contains-entries (some ks) lists k e h = rw (← e, h)

-- Lists are merged by the first known key that every item of them has, if there is an item and all
-- items are maps, and by none otherwise.
pub detect_list_map_key-eq-first :
    (lists : List (List Value))
    → detect_list_map_key lists
      ≡ (if in_all all_maps lists then first_such (is_common lists) known_merge_keys else "")
unfolding detect_list_map_key
detect_list_map_key-eq-first lists = go (scan_lists lists none) (scan_lists_lem lists none)
  where
    go :
        (o : Option (Option (List String)))
        → Scanned o
            (in_all all_maps lists)
            (in_some is_nonempty lists)
            (λ k. in_all (all_have k) lists)
        → (elim o [ none ↦ "" | some common ↦ first_known known_merge_keys (entries common) ])
          ≡ (if in_all all_maps lists then first_such (is_common lists) known_merge_keys else "")
    go none h = rw h
    go (some common) h = rw h.0 (
        first_known_lem known_merge_keys (entries common) (is_common lists)
          (λ k. contains-entries common lists k h.1 (h.2 k)))
