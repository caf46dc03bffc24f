-- ===== src/Fileio.antt =====
-- libnabud/fileio.c: which locations are local, and how a local location becomes a path below the
-- root that a connection is confined to. A C string is the list of its characters.
pub mod Components
pub mod Confined
pub mod Paths
mod Tests
use nabud.Prelude.{ℕ, zero, suc, ◌+◌, List, [], ◌∷◌, ◌++◌, Bool, true, false, ◌==◌, ◌&&◌, ltb}
use nabud.Prelude.{if◌then◌else◌, Option, none, some, ◌⊎◌, inl, inr, length, drop, bit_and, not}

abbrev pub slash : ℕ
slash = b'/'

abbrev pub dot : ℕ
dot = b'.'

pub data EscapeCheckState : Type 0 where
  initial base have_dot have_dot_dot have_slash have_slash_dot have_slash_dot_dot : EscapeCheckState

-- `depth--; if (depth < 0) goto out;`
abbrev pub up : ℕ → Option (EscapeCheckState × ℕ)
up zero = none
up (suc depth) = some (have_slash, depth)

-- One round of the loop: the next state and depth, or none where `depth` falls below 0.
unfoldable pub escape_step : EscapeCheckState → ℕ → ℕ → Option (EscapeCheckState × ℕ)
escape_step initial c depth =
    if c == slash then some (have_slash, depth + 1) else some (initial, depth)
escape_step base c depth = if c == slash then some (have_slash, depth) else some (base, depth)
escape_step have_dot c depth =
    if c == dot
    then some (have_dot_dot, depth)
    else if c == slash
    then some (have_slash, depth)
    else some (base, depth)
escape_step have_slash_dot c depth =
    if c == dot
    then some (have_slash_dot_dot, depth)
    else if c == slash
    then some (have_slash, depth)
    else some (base, depth)
escape_step have_dot_dot c depth = if c == slash then up depth else some (base, depth)
escape_step have_slash_dot_dot c depth = if c == slash then up depth else some (base, depth)
escape_step have_slash c depth =
    if c == dot
    then some (have_slash_dot, depth)
    else if c == slash
    then some (have_slash, depth)
    else some (base, depth + 1)

-- What follows the loop.
abbrev ends_outside : EscapeCheckState → ℕ → Bool
ends_outside initial depth = false
ends_outside base depth = false
ends_outside have_dot depth = false
ends_outside have_dot_dot depth = false
ends_outside have_slash depth = false
ends_outside have_slash_dot depth = false
ends_outside have_slash_dot_dot depth = depth == 0

pub escape_loop : List ℕ → EscapeCheckState → ℕ → Bool
escape_loop [] state depth = ends_outside state depth
escape_loop (c ∷ cs) state depth = elim (escape_step state c depth) [
  | none ↦ true
  | some (state', depth') ↦ escape_loop cs state' depth'
]

abbrev pub after_dot_dot : List ℕ → Bool
after_dot_dot [] = true
after_dot_dot (c ∷ cs) = escape_loop (c ∷ cs) have_dot_dot 0

abbrev pub after_dot : List ℕ → Bool
after_dot [] = escape_loop [] have_dot 0
after_dot (c ∷ cs) = if c == dot then after_dot_dot cs else escape_loop (c ∷ cs) have_dot 0

-- The set-up of the state.
abbrev pub escape_start : List ℕ → Bool
escape_start [] = escape_loop [] initial 0
escape_start (c ∷ cs) = if c == dot then after_dot cs else escape_loop (c ∷ cs) initial 0

unfoldable pub skip_slashes : List ℕ → List ℕ
skip_slashes [] = []
skip_slashes (c ∷ cs) = let further = skip_slashes cs in if c == slash then further else c ∷ cs

unfoldable pub check_local_root_escape : List ℕ → Bool
unfolding skip_slashes escape_loop escape_step
check_local_root_escape location = escape_start (skip_slashes location)

-- `strncmp(location, prefix, strlen(prefix)) == 0`
unfoldable pub starts_with : List ℕ → List ℕ → Bool
starts_with [] location = true
starts_with (p ∷ ps) [] = false
starts_with (p ∷ ps) (c ∷ cs) = p == c && starts_with ps cs

abbrev http_prefix : List ℕ
http_prefix = b'h' ∷ b't' ∷ b't' ∷ b'p' ∷ b':' ∷ b'/' ∷ b'/' ∷ []

abbrev https_prefix : List ℕ
https_prefix = b'h' ∷ b't' ∷ b't' ∷ b'p' ∷ b's' ∷ b':' ∷ b'/' ∷ b'/' ∷ []

abbrev ftp_prefix : List ℕ
ftp_prefix = b'f' ∷ b't' ∷ b'p' ∷ b':' ∷ b'/' ∷ b'/' ∷ []

abbrev pub file_prefix : List ℕ
file_prefix = b'f' ∷ b'i' ∷ b'l' ∷ b'e' ∷ b':' ∷ b'/' ∷ b'/' ∷ []

-- `fileio_scheme_ops`, with `true` for the operations of local files. The last row has no scheme.
abbrev fileio_scheme_ops : List (List ℕ × Bool)
fileio_scheme_ops =
    (http_prefix, false) ∷ (https_prefix, false) ∷ (ftp_prefix, false) ∷ (file_prefix, true) ∷ []

-- The loop over the schemes.
unfoldable ops_among : List (List ℕ × Bool) → List ℕ → ℕ → Bool
unfolding starts_with
ops_among [] location loclen = true
ops_among ((scheme, is_local) ∷ more) location loclen =
    let further = ops_among more location loclen in
    if not (ltb loclen (length scheme)) && starts_with scheme location then is_local else further

unfoldable pub fileio_location_is_local : List ℕ → ℕ → Bool
unfolding ops_among
fileio_location_is_local location loclen = ops_among fileio_scheme_ops location loclen

-- An absolute path keeps one of the slashes at its head.
unfoldable pub strip_extra_slashes : List ℕ → List ℕ
unfolding skip_slashes
strip_extra_slashes [] = []
strip_extra_slashes (c ∷ cs) = if c == slash then slash ∷ skip_slashes cs else c ∷ cs

abbrev pub fileio_o_local_root : ℕ
fileio_o_local_root = 0x0008

abbrev pub with_prefix_stripped : List ℕ → List ℕ
with_prefix_stripped location =
    if starts_with file_prefix location then drop 6 location else location

-- `fname`, where there is memory for it.
abbrev pub allocated : Bool → List ℕ → ℕ ⊎ List ℕ
allocated malloc_ok fname = if malloc_ok then inr fname else inl 12

-- The last part, with the local root. The numbers are EINVAL, EPERM and ENOMEM.
abbrev pub below_root : Bool → List ℕ → Option (List ℕ) → ℕ → ℕ ⊎ List ℕ
below_root malloc_ok location none flags =
    if bit_and flags fileio_o_local_root == 0 then allocated malloc_ok location else inl 1
below_root malloc_ok location (some []) flags = inl 22
below_root malloc_ok location (some (r ∷ root)) flags =
    if not (r == slash)
    then inl 22
    else if check_local_root_escape location
    then inl 1
    else allocated malloc_ok ((r ∷ root) ++ (slash ∷ location))

abbrev pub non_empty : List ℕ → ℕ ⊎ List ℕ → ℕ ⊎ List ℕ
non_empty [] r = inl 22
non_empty (c ∷ cs) r = r

abbrev root_missing : Option (List ℕ) → ℕ → Bool
root_missing none flags = not (bit_and flags fileio_o_local_root == 0)
root_missing (some root) flags = false

-- An error number, or the path.
unfoldable pub fileio_local_resolve_path : Bool → List ℕ → Option (List ℕ) → ℕ → ℕ ⊎ List ℕ
unfolding strip_extra_slashes starts_with check_local_root_escape
fileio_local_resolve_path malloc_ok location root flags =
    let stripped = strip_extra_slashes (with_prefix_stripped location) in
    if root_missing root flags
    then inl 22
    else non_empty stripped (below_root malloc_ok stripped root flags)

unfoldable pub fileio_resolve_path : Bool → List ℕ → Option (List ℕ) → ℕ → ℕ ⊎ List ℕ
unfolding fileio_location_is_local fileio_local_resolve_path
fileio_resolve_path malloc_ok location root flags =
    if not (fileio_location_is_local location (length location))
    then inl 22
    else fileio_local_resolve_path malloc_ok location root flags
