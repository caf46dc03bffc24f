-- ===== src/Retronet/Moves.antt =====
-- nabud/retronet.c: FILE-DELETE and FILE-MOVE.
use nabud.Prelude.{ℕ, List, [], ◌∷◌, ◌++◌, Bool, true, ◌==◌, not, ◌&&◌, if◌then◌else◌}
use nabud.Prelude.{Option, none, some, ◌⊎◌, inl, inr, bit_and}
use nabud.Prelude.Monad.{M, pure, read, ◌>>=◌}
use nabud.Prelude.Monad.{modify}
use nabud.Retronet.{RnExchange, RnSystem, PathCall, unlink, rename}
use nabud.Retronet.Names.{on_filename, resolve, rn_file_copy_move_getargs}

-- What FILE-DELETE does with the path that a name resolves to.
unfoldable pub delete_call : ℕ ⊎ List ℕ → Option PathCall
delete_call (inl e) = none
delete_call (inr path) = some (unlink path)

-- `ENOENT`
abbrev enoent : ℕ
enoent = 2

-- Something is at the path, or its absence is not sure.
abbrev may_exist : Option ℕ → Bool
may_exist none = true
may_exist (some e) = not (e == enoent)

unfoldable pub move_call : RnSystem → ℕ → ℕ ⊎ List ℕ → ℕ ⊎ List ℕ → Option PathCall
move_call system flags (inl e) dst = none
move_call system flags (inr src) (inl e) = none
move_call system flags (inr src) (inr dst) =
    if bit_and flags 0x01 == 0 && may_exist (system.stat dst) then none else some (rename src dst)

abbrev pub called : Option PathCall → RnExchange → RnExchange
called none e = e
called (some call) e = record e { calls = e.calls ++ (call ∷ []) }

unfoldable pub rn_req_file_delete : M RnExchange (Unit {0})
unfolding resolve delete_call
rn_req_file_delete =
    on_filename (λ fname. do path ← resolve fname; modify (called (delete_call path)))

unfoldable pub rn_req_file_move : M RnExchange (Unit {0})
unfolding rn_file_copy_move_getargs resolve move_call
rn_req_file_move = do
  args ← rn_file_copy_move_getargs
  elim args [
    | none ↦ pure tt
    | some (src_fname, dst_fname, flags) ↦ do
      src_path ← resolve src_fname
      dst_path ← resolve dst_fname
      system ← read (λ e. e.system)
      modify (called (move_call system flags src_path dst_path))
  ]
