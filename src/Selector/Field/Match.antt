-- ===== src/Selector/Field/Match.antt =====
-- What a field selector with one expression matches, and what it does not tell apart.
use metac.Prelude.{
  String, Bool, false, ◌≡◌, ◌∙◌, ap, refl, inl, Option, none, some, List, [], ◌∷◌, Dict, insert,
  lookup, contains, ◌==◌, eq_refl, arith,
}
use metac.Prelude.Results.{ok}
use metac.Prelude.Text.{split}
use metac.Api.{Object, Api}
use metac.Selector.Labels.{
  LabelSelectorRequirement, LabelSelector, label_in, meet_all, Labels, LabelsLaws,
}
use metac.Selector.Field.{
  sanitise_value, sanitise_labels, new_field_selector, put_found, target_labels, field_match,
}

abbrev pub one_in : String → List String → LabelSelector
one_in key values = record {
  match_labels = [];
  match_expressions = record { key = key; operator = label_in; values = values } ∷ [];
}

abbrev sanitised : String → String → LabelSelectorRequirement
sanitised key v = record { key = key; operator = label_in; values = sanitise_value v ∷ [] }

selector_of :
    (labels : Labels) (key v : String) (vs : List String) (f : Dict String → Bool)
    → (key == "") ≡ false
    → labels.as_selector (sanitise_labels (one_in key (v ∷ vs))) ≡ ok f
    → new_field_selector labels (one_in key (v ∷ vs))
      ≡ record { selector = some f; field_keys = key ∷ []; error = none }
unfolding new_field_selector sanitise_labels
selector_of labels key v vs f k e = rw (k, e)

accepted :
    (labels : Labels) (laws : LabelsLaws labels) (key v : String) (vs : List String)
    (f : Dict String → Bool) (lbls : Dict String)
    → labels.as_selector (sanitise_labels (one_in key (v ∷ vs))) ≡ ok f
    → f lbls ≡ meet_all (sanitised key v ∷ []) lbls
unfolding sanitise_labels
accepted labels laws key v vs f lbls e =
    laws.expressions_only (sanitised key v ∷ []) f (inl refl, tt) e lbls

match_one :
    (api : Api) (f : Dict String → Bool) (key : String) (target : Object) (found : Option String)
    → api.nested_string target (split b'.' key) ≡ ok found
    → field_match api (record { selector = some f; field_keys = key ∷ []; error = none }) target
      ≡ ok (f (put_found api key found []))
unfolding field_match target_labels
match_one api f key target found n = rw (n, field_match, target_labels)

-- A selector of one expression In, with a first value and others, that the library accepts. On a
-- target where the path holds nothing or a text, it matches exactly if the path holds a text that
-- is sanitised like the first value: the others are never compared.
pub field_match-in :
    (labels : Labels) (laws : LabelsLaws labels) (api : Api) (key v : String) (vs : List String)
    (target : Object) (f : Dict String → Bool) (found : Option String)
    → (key == "") ≡ false
    → labels.as_selector (sanitise_labels (one_in key (v ∷ vs))) ≡ ok f
    → api.nested_string target (split b'.' key) ≡ ok found
    → field_match api (new_field_selector labels (one_in key (v ∷ vs))) target
      ≡ ok (elim found [ none ↦ false | some val ↦ sanitise_value v == sanitise_value val ])
field_match-in labels laws api key v vs target f none k e n =
    ap (λ s. field_match api s target) (selector_of labels key v vs f k e)
    ∙ match_one api f key target none n
    ∙ ap ok (accepted labels laws key v vs f [] e ∙ (unfold lookup in refl))
field_match-in labels laws api key v vs target f (some val) k e n =
    ap (λ s. field_match api s target) (selector_of labels key v vs f k e)
    ∙ match_one api f key target (some val) n
    ∙ ap ok (accepted labels laws key v vs f (put_found api key (some val) []) e ∙ one_value)
  where
    one_value :
        meet_all (sanitised key v ∷ []) (put_found api key (some val) [])
        ≡ (sanitise_value v == sanitise_value val)
    one_value = unfold lookup contains insert in rw (eq_refl key) (ground arith)
