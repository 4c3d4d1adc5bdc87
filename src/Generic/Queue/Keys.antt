-- ===== src/Generic/Queue/Keys.antt =====
-- The key of a watch, as it is made and read.
use Prim.Native.String.{◌++◌ as append}
use Prim.Native.String.append.{nil as append_nil, cons as append_cons}
use metac.Prelude.{String, false, ◌≡◌, refl, ap, ◌∙◌, some, [], ◌∷◌}
use metac.Prelude.Text.{concat, split_once, has_byte, split_once-concat}
use metac.Api.{Object, Api}
use metac.Generic.Queue.{unstructured, make_watch_queue_key, split_n, split_watch_queue_key}

colon_first : (s : String) → split_once b':' (append ":" s) ≡ ("", some s)
unfolding split_once
colon_first s = rw (append_cons ":" "" s, append_nil s)

append_empty : (s : String) → append s "" ≡ s
append_empty String.[] = append_nil ""
append_empty (String.◌∷◌ c s) = append_cons c s "" ∙ ap (String.◌∷◌ c) (append_empty s)

cut :
    (a rest : String)
    → has_byte b':' a ≡ false
    → split_once b':' (append a (append ":" rest)) ≡ (a, some rest)
cut a rest h = split_once-concat b':' a (append ":" rest) rest h (colon_first rest)

-- The key of a watch is read back as its API version, kind, namespace and name, if the first three have
-- no colon; the name may have colons.
pub split-make_watch_queue_key :
    (api : Api) (o : Object) (key : String)
    → has_byte b':' (api.get_api_version o) ≡ false
    → has_byte b':' (api.get_kind o) ≡ false
    → has_byte b':' (api.get_namespace o) ≡ false
    → make_watch_queue_key api (unstructured o) ≡ some key
    → split_watch_queue_key key
      ≡ some (record {
        api_version = api.get_api_version o;
        kind = api.get_kind o;
        namespace = api.get_namespace o;
        name = api.get_name o;
      })
unfolding make_watch_queue_key split_watch_queue_key split_n concat
split-make_watch_queue_key api o key hv hk hn e =
    let text : key
        ≡ concat (
            api.get_api_version o
            ∷ ":"
            ∷ api.get_kind o
            ∷ ":"
            ∷ api.get_namespace o
            ∷ ":"
            ∷ api.get_name o
            ∷ []) =
      cc e in
    rw (text, cut _ _ hv, cut _ _ hk, cut _ _ hn, append_empty (api.get_name o)) refl
