-- ===== src/Config/Profiles/Patches.antt =====
-- src/hpc_gui/config/storage.py: `merge_profile_patch` and `resolve_provider_overrides`.
use hpc_client_gui.Base.{
  ◌≡◌, refl, ap, ◌∙◌, List, [], ◌∷◌, Bool, false, ◌||◌, is_empty, if◌then◌else◌, Option, none, some,
  arith,
}
use hpc_client_gui.Base.Text.{Text, text_eq, strip}
use hpc_client_gui.Base.Json.{
  Json, null, bool, int, real, text, array, object, Members, empty, member, get, put, pop, merge,
}
use hpc_client_gui.Base.Json.Laws.{get-put, get-pop, get-merge, get_last, or_else}

abbrev pub dict_or_empty : Option Members → Members
dict_or_empty none = empty
dict_or_empty (some d) = d

unfoldable pub pop_all : List Text → Members → Members
pop_all [] d = d
pop_all (key ∷ keys) d = pop_all keys (pop key d)

-- `merge_profile_patch`; the existing record is `none` where it is no dictionary.
unfoldable pub merge_profile_patch : Option Members → Members → List Text → Members
merge_profile_patch existing patch remove_keys =
    pop_all remove_keys (merge (dict_or_empty existing) patch)

-- The value that an override sets: a blank string clears as `None` does.
unfoldable pub cleared : Json → Json
cleared (text t) = if is_empty (strip t) then null else text t
cleared null = null
cleared (bool b) = bool b
cleared (int z) = int z
cleared (real r) = real r
cleared (array vs) = array vs
cleared (object d) = object d

unfoldable pub override : Members → Members → Members
override result empty = result
override result (member key value overrides) = override (put key (cleared value) result) overrides

-- `resolve_provider_overrides`
unfoldable pub resolve_provider_overrides : Option Members → Members → Members
resolve_provider_overrides provider overrides = override (dict_or_empty provider) overrides

abbrev pub contains : Text → List Text → Bool
contains key [] = false
contains key (k ∷ ks) = text_eq key k || contains key ks

get-pop_all :
    (key : Text) (keys : List Text) (d : Members)
    → get key (pop_all keys d) ≡ (if contains key keys then none else get key d)
unfolding pop_all
get-pop_all key [] d = refl
get-pop_all key (k ∷ ks) d = ground (arith, get-pop_all key ks (pop k d), get-pop key k d)

abbrev pub map_cleared : Option Json → Option Json
map_cleared none = none
map_cleared (some v) = some (cleared v)

get-override :
    (key : Text) (result overrides : Members)
    → get key (override result overrides)
      ≡ or_else (map_cleared (get_last key overrides)) (get key result)
unfolding override get_last
get-override key result empty = refl
get-override key result (member k v overrides) =
    ground (
      arith,
      get-override key (put k (cleared v) result) overrides,
      get-put key k (cleared v) result,
    )

-- After a patch, a key that is to be removed is not there; any other key has the last value that
-- the patch gives for it, else the one of the existing record. After overrides, a key has the last
-- value the overrides give for it, where a blank string counts as none, else the provider's.
pub merge_profile_patch-get :
    (existing : Option Members) (patch : Members) (remove_keys : List Text) (key : Text)
    → (get key (merge_profile_patch existing patch remove_keys) ≡ (
        if contains key remove_keys
        then none
        else or_else (get_last key patch) (get key (dict_or_empty existing))))
      × (get key (resolve_provider_overrides existing patch)
          ≡ or_else (map_cleared (get_last key patch)) (get key (dict_or_empty existing)))
unfolding merge_profile_patch resolve_provider_overrides
merge_profile_patch-get existing patch remove_keys key = (
  get-pop_all key remove_keys (merge (dict_or_empty existing) patch)
      ∙ ap (λ o. if contains key remove_keys then none else o)
          (get-merge key (dict_or_empty existing) patch),
  get-override key (dict_or_empty existing) patch,
)
