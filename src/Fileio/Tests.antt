-- ===== src/Fileio/Tests.antt =====
-- Locations that stay below the root "/r", and some that do not.
use nabud.Prelude.{◌≡◌, refl, List, ℕ, [], ◌∷◌, true, false, some, inr}
use nabud.Fileio.{check_local_root_escape, fileio_resolve_path}
use nabud.Fileio.Paths.{Below, resolve_path-Below}

-- "a/../b" and "..".
abbrev inside : List ℕ
inside = b'a' ∷ b'/' ∷ b'.' ∷ b'.' ∷ b'/' ∷ b'b' ∷ []

abbrev outside : List ℕ
outside = b'a' ∷ b'/' ∷ b'.' ∷ b'.' ∷ b'/' ∷ b'.' ∷ b'.' ∷ []

-- ".a/../b" stays below the root, but is refused.
abbrev hidden : List ℕ
hidden = b'.' ∷ inside

abbrev root : List ℕ
root = b'/' ∷ b'r' ∷ []

passes : check_local_root_escape inside ≡ false
unfolding check_local_root_escape
passes = refl

refuses : check_local_root_escape outside ≡ true
unfolding check_local_root_escape
refuses = refl

refuses_hidden : check_local_root_escape hidden ≡ true
unfolding check_local_root_escape
refuses_hidden = refl

resolves : fileio_resolve_path true inside (some root) 8 ≡ inr (b'/' ∷ b'r' ∷ b'/' ∷ inside)
unfolding fileio_resolve_path
resolves = refl

resolve_path-Below_example : Below root (fileio_resolve_path true inside (some root) 8)
resolve_path-Below_example = resolve_path-Below true inside root 8
