-- ===== src/Nhacp/Paths.antt =====
-- nabud/nhacp.c: the other handlers that are modelled: GET-DATE-TIME, FILE-CLOSE,
-- GET-ERROR-DETAILS, FILE-SET-SIZE and the requests on paths.
use nabud.Prelude.{ℕ, ◌+◌, List, ◌==◌, ◌⊎◌}
use nabud.Prelude.{if◌then◌else◌, Option, none, some, bit_and, inl, inr}
use nabud.Prelude.Monad.{M, pure, modify, read, ◌>>=◌, ◌>>◌}
use nabud.Stext.{Errno, other_errno, Backing, StextFile, stext_file_find}
use nabud.Stext.Open.{stext_file_close}
use nabud.Stext.Files.{stext_file_truncate}
use nabud.Nhacp.{System, Exchange, store, fetch, with_buffer, at}
use nabud.Nhacp.Texts.{nhacp_string_get}
use nabud.Nhacp.Reply.{nhacp_send_reply, nhacp_send_error_details}
use nabud.Nhacp.Files.{get8, get16, get32, on_file, answer, with_file, with_stext}

unfoldable pub nhacp_req_get_date_time : M Exchange (Unit {0})
nhacp_req_get_date_time = do
  now ← read (λ e. e.system.date_time)
  modify (with_buffer (store 3 (fetch 0 14 now)))
  nhacp_send_reply 0x85 15

abbrev pub close_found : Option StextFile → M Exchange (Unit {0})
close_found none = pure tt
close_found (some f) = modify (λ e. with_stext (stext_file_close f e.session.stext) e)

unfoldable pub nhacp_req_file_close : M Exchange (Unit {0})
nhacp_req_file_close = do
  slot ← get8 3
  found ← read (λ e. stext_file_find slot e.session.stext.files)
  close_found found

unfoldable pub nhacp_req_get_error_details : M Exchange (Unit {0})
unfolding get16
nhacp_req_get_error_details = do code ← get16 3; limit ← get8 5; nhacp_send_error_details code limit

abbrev pub truncated : ℕ → Option Errno × Backing → M Exchange (Unit {0})
truncated slot (e, b) = modify (with_file slot b) >> answer e

unfoldable pub nhacp_req_file_set_size : M Exchange (Unit {0})
unfolding on_file get32 stext_file_truncate
nhacp_req_file_set_size = on_file (λ f. do
  size ← get32 4
  failed ← read (λ e. e.system.truncate size)
  truncated f.slot (stext_file_truncate failed f.backing size))

abbrev pub as_errno : Option ℕ → Option Errno
as_errno none = none
as_errno (some e) = some (other_errno e)

-- A call on the path that a name resolves to.
unfoldable pub on_path : ℕ ⊎ List ℕ → (List ℕ → Option ℕ) → Option Errno
on_path (inl e) call = some (other_errno e)
on_path (inr path) call = as_errno (call path)

unfoldable pub nhacp_req_remove : M Exchange (Unit {0})
unfolding get16 on_path
nhacp_req_remove = do
  flags ← get16 3
  name ← read (at (nhacp_string_get 5))
  system ← read (λ e. e.system)
  answer (
      on_path (system.resolve_path name)
        (if bit_and flags 1 == 0 then system.unlink else system.rmdir))

abbrev pub rename_paths : System → ℕ ⊎ List ℕ → ℕ ⊎ List ℕ → Option Errno
rename_paths system (inl e) dst = some (other_errno e)
rename_paths system (inr src) (inl e) = some (other_errno e)
rename_paths system (inr src) (inr dst) = as_errno (system.rename src dst)

-- The second name follows the first one, whose length byte is at offset 3; the offset of the second
-- is not compared with the length of the message.
unfoldable pub nhacp_req_rename : M Exchange (Unit {0})
unfolding on_path
nhacp_req_rename = do
  old_length ← get8 3
  new_name ← read (at (nhacp_string_get (4 + old_length)))
  old_name ← read (at (nhacp_string_get 3))
  system ← read (λ e. e.system)
  answer (rename_paths system (system.resolve_path old_name) (system.resolve_path new_name))

unfoldable pub nhacp_req_mkdir : M Exchange (Unit {0})
unfolding on_path
nhacp_req_mkdir = do
  name ← read (at (nhacp_string_get 3))
  system ← read (λ e. e.system)
  answer (on_path (system.resolve_path name) system.mkdir)
