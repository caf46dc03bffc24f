-- ===== src/Retronet/Names.antt =====
-- nabud/retronet.c: the names of files in requests, and the attributes of a named file.
use nabud.Prelude.{ℕ, ◌-◌, List, [], ◌∷◌, ◌==◌, ◌&&◌, leb, if◌then◌else◌, map}
use nabud.Prelude.{Option, none, some, ◌⊎◌, inl, inr, not}
use nabud.Prelude.Monad.{M, pure, read, ◌>>=◌}
use nabud.Proto.{byte_at}
use nabud.Fileio.{fileio_location_is_local, fileio_resolve_path, fileio_o_local_root}
use nabud.Retronet.{RnExchange, FileioAttrs, conn_recv}

-- The C string that begins with the bytes of a buffer.
unfoldable c_string : List ℕ → List ℕ
c_string [] = []
c_string (b ∷ bs) = let more = c_string bs in if b == 0 then [] else b ∷ more

-- `islower` and `toupper` in the C locale; a backslash becomes a slash.
unfoldable normalized_char : ℕ → ℕ
normalized_char c = if c == b'\\' then b'/' else if leb b'a' c && leb c b'z' then c - 32 else c

-- The name of `len` bytes, which is followed by a nul.
unfoldable normalized : ℕ → List ℕ → List ℕ
unfolding c_string normalized_char fileio_location_is_local
normalized len name =
    if not (fileio_location_is_local (c_string name) len)
    then c_string name
    else c_string (map normalized_char name)

-- The name, as a C string, or none for the error ETIMEDOUT.
unfoldable pub rn_recv_filename : M RnExchange (Option (List ℕ))
unfolding normalized
rn_recv_filename = do
  (got_len, bytes) ← conn_recv 1
  let len = byte_at bytes 0
  if not got_len then pure none else (do
    (got_name, name) ← conn_recv len
    if got_name then pure (some (normalized len name)) else pure none)

abbrev pub on_filename : (List ℕ → M RnExchange (Unit {0})) → M RnExchange (Unit {0})
on_filename handle = do name ← rn_recv_filename; elim name [ none ↦ pure tt | some n ↦ handle n ]

-- `fileio_resolve_path` of a name below the root of the connection.
unfoldable pub resolve : List ℕ → M RnExchange (ℕ ⊎ List ℕ)
resolve name =
    read (λ e. fileio_resolve_path e.system.malloc_ok name e.file_root fileio_o_local_root)

-- None for an error of any kind.
unfoldable pub rn_file_getattr : M RnExchange (Option FileioAttrs)
unfolding rn_recv_filename
rn_file_getattr = do
  name ← rn_recv_filename
  system ← read (λ e. e.system)
  pure (elim name [
    | none ↦ none
    | some n ↦ elim (system.getattr_location n) [ inl e ↦ none | inr a ↦ some a ]
  ])

-- The flags that follow the two names.
abbrev pub recv_flags : List ℕ → Option (List ℕ) → M RnExchange (Option (List ℕ × List ℕ × ℕ))
recv_flags s none = pure none
recv_flags s (some d) = do
  (got_flags, flags) ← conn_recv 1
  pure (if got_flags then some (s, d, byte_at flags 0) else none)

abbrev pub recv_second : Option (List ℕ) → M RnExchange (Option (List ℕ × List ℕ × ℕ))
recv_second none = pure none
recv_second (some s) = do dst ← rn_recv_filename; recv_flags s dst

-- The two names and the flags.
unfoldable pub rn_file_copy_move_getargs : M RnExchange (Option (List ℕ × List ℕ × ℕ))
unfolding rn_recv_filename
rn_file_copy_move_getargs = do src ← rn_recv_filename; recv_second src
