-- ===== src/Navigation.antt =====
-- src/hpc_gui/services/remote_navigation_store.py: the favorites and the history of one profile. Paths
-- are texts; the calls stand for what happens under the store's lock.
pub mod Paths
pub mod Unique
pub mod Toggle
pub mod Disk
pub mod Plain
mod Tests
use hpc_client_gui.Base.{
  ℕ, List, [], ◌∷◌, ◌++◌, Bool, true, false, not, ◌==◌, if◌then◌else◌, any, take, length, is_empty,
  Option, none, some,
}
use hpc_client_gui.Base.Text.{Text, codes, text_eq, rstrip_by}

pub data Kind : Type 0 where
  file directory : Kind

pub record Favorite : Type 0 where
  pub id : Text
  pub path : Text
  pub label : Text
  pub kind : Kind

pub record Visit : Type 0 where
  pub path : Text
  pub last_visited : ℕ

pub record Navigation : Type 0 where
  pub favorites : List Favorite
  pub history : List Visit

abbrev pub max_history : ℕ
max_history = 100

-- `text or other`
abbrev pub or_text : Text → Text → Text
or_text [] other = other
or_text (c ∷ s) other = c ∷ s

abbrev pub is_slash : ℕ → Bool
is_slash c = c == b'/'

-- `_normalize`
unfoldable pub normalize : Text → Text
unfolding rstrip_by
normalize path = or_text (rstrip_by is_slash (or_text path (codes "/"))) (codes "/")

-- `text.rsplit(separator, 1)[-1]`, after a part that is already read.
unfoldable pub last_part : ℕ → Text → Text → Text
last_part separator word [] = word
last_part separator word (c ∷ s) =
    let rest = last_part separator [] s in
    let longer = last_part separator (word ++ (c ∷ [])) s in if c == separator then rest else longer

unfoldable pub basename : Text → Text
unfolding normalize last_part
basename path = or_text (last_part b'/' [] (normalize path)) (normalize path)

abbrev pub empty : Navigation
empty = record { favorites = []; history = [] }

abbrev pub at_path : Text → Text → Bool
at_path target path = text_eq (normalize path) target

unfoldable pub is_favorite : Text → Navigation → Bool
is_favorite path n = any (λ (item : Favorite). at_path (normalize path) item.path) n.favorites

abbrev pub label_or : Option Text → Text → Text
label_or none other = other
label_or (some text) other = or_text text other

-- `add_favorite`, with the new item's `uuid4`. The second component says whether it persists.
unfoldable pub add_favorite : Text → Text → Kind → Option Text → Navigation → Navigation × Bool
unfolding is_favorite basename
add_favorite uuid path kind label n =
    let target = normalize path in
    let item : Favorite = record {
      id = uuid;
      path = target;
      label = label_or label (basename target);
      kind = kind;
    } in
    if is_favorite target n
    then (n, false)
    else (record n { favorites = n.favorites ++ (item ∷ []) }, true)

unfoldable pub other_favorites : Text → List Favorite → List Favorite
other_favorites target [] = []
other_favorites target (item ∷ items) =
    if at_path target item.path
    then other_favorites target items
    else item ∷ other_favorites target items

unfoldable pub remove_favorite : Text → Navigation → Navigation × Bool
unfolding other_favorites
remove_favorite path n =
    let kept = other_favorites (normalize path) n.favorites in
    if length kept == length n.favorites then (n, false) else (record n { favorites = kept }, true)

-- `toggle_favorite`: the state, whether it persists, and the result.
unfoldable pub toggle_favorite : Text → Text → Kind → Navigation → (Navigation × Bool) × Bool
unfolding is_favorite add_favorite remove_favorite
toggle_favorite uuid path kind n =
    if is_favorite path n
    then (remove_favorite path n, false)
    else (add_favorite uuid path kind none n, true)

unfoldable pub other_visits : Text → List Visit → List Visit
other_visits target [] = []
other_visits target (item ∷ items) =
    if at_path target item.path then other_visits target items else item ∷ other_visits target items

-- `record_visit`, with the time of the call.
unfoldable pub record_visit : ℕ → Text → Navigation → Navigation × Bool
unfolding other_visits
record_visit now path n =
    let target = normalize path in
    let visit : Visit = record { path = target; last_visited = now } in
    (record n { history = take max_history (visit ∷ other_visits target n.history) }, true)

unfoldable pub clear_history : Navigation → Navigation × Bool
clear_history n = if is_empty n.history then (n, false) else (record n { history = [] }, true)

-- The calls that change the state.
pub data Call : Type 0 where
  add : Text → Text → Kind → Option Text → Call
  remove : Text → Call
  toggle : Text → Text → Kind → Call
  visit : ℕ → Text → Call
  clear : Call

unfoldable pub call : Call → Navigation → Navigation × Bool
unfolding add_favorite remove_favorite toggle_favorite record_visit clear_history
call (add uuid path kind label) n = add_favorite uuid path kind label n
call (remove path) n = remove_favorite path n
call (toggle uuid path kind) n = (toggle_favorite uuid path kind n).0
call (visit now path) n = record_visit now path n
call clear n = clear_history n
