-- ===== src/Transfer/Mode.antt =====
-- src/hpc_gui/services/transfer_mode.py: the choice of a transfer mode. Paths are POSIX paths.
pub mod Laws
use hpc_client_gui.Base.{
  ℕ, ◌+◌, ◌*◌, List, [], ◌∷◌, ◌++◌, Bool, true, false, ◌&&◌, ◌||◌, ltb, leb, ◌==◌, if◌then◌else◌,
  take, any, length, is_empty, Option, none, some,
}
use hpc_client_gui.Base.Text.{Text, codes, text_eq, one_of, strip, lower, split, starts_with}
use hpc_client_gui.Transfer.Utf8.{Decoded, text, fault, decode}
use mathlib.Core.List.{reverse}
use Prim.Native.String.{String}

-- `TRANSFER_MODES`
pub data Mode : Type 0 where
  auto binary ascii : Mode

abbrev pub sample_size : ℕ
sample_size = 8192

-- `normalize_transfer_mode`
unfoldable pub normalize_transfer_mode : Text → Mode → Mode
unfolding strip lower text_eq
normalize_transfer_mode value default =
    let normalized = lower (strip value) in
    if text_eq normalized (codes "auto")
    then auto
    else if text_eq normalized (codes "binary")
    then binary
    else if text_eq normalized (codes "ascii")
    then ascii
    else default

abbrev pub is_suspicious : ℕ → Bool
is_suspicious byte = ltb byte 9 || (ltb 13 byte && ltb byte 32)

unfoldable pub count_suspicious : List ℕ → ℕ
count_suspicious [] = 0
count_suspicious (b ∷ bs) = (if is_suspicious b then 1 else 0) + count_suspicious bs

-- `suspicious / len(sample) > 0.10`
unfoldable pub is_crowded : List ℕ → Bool
unfolding count_suspicious
is_crowded sample = ltb (length sample) (10 * count_suspicious sample)

abbrev pub is_text : Decoded → Bool
is_text (text t) = true
is_text (fault t tail n) = false

-- `looks_binary`. A sample has at most 8192 bytes, so the quotient of floats is above `0.10`
-- exactly where ten times the count is above the length.
unfoldable pub looks_binary : List ℕ → Bool
looks_binary bytes =
    let sample = take sample_size bytes in
    if any (λ b. b == 0) bytes
    then true
    else if is_empty bytes
    then false
    else if is_text (decode sample)
    then is_crowded sample
    else true

-- `Path(path).name`: the last component, empty ones and `.` left out.
unfoldable pub last_component : List Text → Text → Text
unfolding text_eq
last_component [] name = name
last_component (part ∷ parts) name =
    last_component parts (if is_empty part || text_eq part (codes ".") then name else part)

unfoldable pub path_name : Text → Text
unfolding split last_component
path_name path = last_component (split b'/' path) []

-- Whether a dot stands in a text behind its first character and before its last: `Path.suffix`
-- is not empty, for the part behind the last dot is not.
unfoldable pub dot_inside : Bool → Text → Bool
dot_inside found [] = found
dot_inside found (c ∷ s) =
    dot_inside (if c == b'.' then (if is_empty s then false else true) else found) s

unfoldable pub has_suffix : Text → Bool
unfolding dot_inside
has_suffix [] = false
has_suffix (c ∷ s) = dot_inside false s

-- `str.casefold`, exact where the end of the result is compared with one of `TEXT_EXTENSIONS`.
abbrev pub casefold_code : ℕ → ℕ
casefold_code c =
    if leb b'A' c && leb c b'Z'
    then c + 32
    else if c == 0x17F
    then b's'
    else if c == 0x212A
    then b'k'
    else c

unfoldable pub casefold : Text → Text
casefold [] = []
casefold (c ∷ s) = casefold_code c ∷ casefold s

unfoldable pub ends_with : Text → Text → Bool
unfolding starts_with
ends_with s suffix = starts_with (reverse s) (reverse suffix)

-- `TEXT_EXTENSIONS`
abbrev pub text_extensions : List String
text_extensions =
    ".bash" ∷ ".cfg" ∷ ".conf" ∷ ".csv" ∷ ".ini" ∷ ".json" ∷ ".log" ∷ ".md" ∷ ".out" ∷ ".py"
    ∷ ".sbatch" ∷ ".sh" ∷ ".slurm" ∷ ".text" ∷ ".toml" ∷ ".tsv" ∷ ".txt" ∷ ".xml" ∷ ".yaml" ∷ ".yml"
    ∷ []

-- `is_known_text_path`
unfoldable pub is_known_text_path : Text → Bool
unfolding path_name has_suffix casefold ends_with
is_known_text_path path =
    let name = path_name path in
    if has_suffix name
    then any (λ ext. ends_with (casefold name) (codes ext)) text_extensions
    else false

pub data Resolved : Type 0 where
  mode : Mode → Resolved
  value_error : Resolved

abbrev pub sampled_binary : Option (List ℕ) → Bool
sampled_binary none = false
sampled_binary (some sample) = looks_binary sample

-- `resolve_transfer_mode`, behind the normalisation of the requested mode.
unfoldable pub resolve_normalized : Text → Mode → Option (List ℕ) → Resolved
resolve_normalized path binary sample = mode binary
resolve_normalized path ascii sample = if sampled_binary sample then value_error else mode ascii
resolve_normalized path auto sample =
    if sampled_binary sample
    then mode binary
    else if is_known_text_path path
    then mode ascii
    else mode binary

unfoldable pub resolve_transfer_mode : Text → Text → Option (List ℕ) → Resolved
unfolding resolve_normalized
resolve_transfer_mode path requested sample =
    resolve_normalized path (normalize_transfer_mode requested auto) sample
