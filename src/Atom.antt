-- ===== src/Atom.antt =====
-- libnabud/atom.c: the tagged values that nabuctl and the control service exchange. The bytes of the
-- network order are those of `nabu_set_uint32_be`. Where the data lies in memory is left out.
pub mod Wire
pub mod Lists
pub mod Reception
mod Tests
use nabud.Prelude.{
  ℕ, ◌+◌, ◌-◌, ◌*◌, ◌^◌, ◌%◌, List, [], ◌∷◌, ◌++◌, Bool, true, false, not, ◌&&◌, ◌||◌, ◌==◌, ltb,
}
use nabud.Prelude.{if◌then◌else◌, length, drop, bit_and, Option, none, some}
use nabud.Prelude.Monad.{M, pure, read, assert, ◌>>=◌, ◌>>◌}
use nabud.Proto.{byte_at, nabu_get_uint32_be, nabu_set_uint32_be}
use nabud.ConnIo.{ConnIo, conn_io_send, conn_io_recv, conn_io_check_state}

abbrev pub nabuctl_done : ℕ
nabuctl_done = 0

abbrev pub nabuctl_error : ℕ
nabuctl_error = 0x00ff_ffff

-- `NABUCTL_TYPE(x)` and `NABUCTL_OBJ(x)`
abbrev pub nabuctl_type : ℕ → ℕ
nabuctl_type tag = bit_and tag 0xff00_0000

abbrev pub nabuctl_type_void : ℕ
nabuctl_type_void = 0

abbrev pub nabuctl_type_string : ℕ
nabuctl_type_string = 0x0100_0000

abbrev pub nabuctl_type_number : ℕ
nabuctl_type_number = 0x0200_0000

abbrev pub nabuctl_type_blob : ℕ
nabuctl_type_blob = 0x0300_0000

abbrev pub nabuctl_type_bool : ℕ
nabuctl_type_bool = 0x0400_0000

-- `struct atom`; `hdr.length` is the length of the data.
pub record Atom : Type 0 where
  pub tag : ℕ
  pub content : List ℕ

unfoldable pub atom_data_type : Atom → ℕ
atom_data_type atom = nabuctl_type atom.tag

-- The header, as `atom_send_hdr` sends it.
unfoldable pub atom_hdr : ℕ → ℕ → List ℕ
atom_hdr tag len = nabu_set_uint32_be tag ++ nabu_set_uint32_be len

abbrev send_data : List ℕ → M ConnIo (Unit {0})
send_data [] = pure tt
send_data (b ∷ bytes) = conn_io_send (b ∷ bytes)

unfoldable pub atom_send : Atom → M ConnIo (Unit {0})
unfolding atom_hdr
atom_send atom = do conn_io_send (atom_hdr atom.tag (length atom.content)); send_data atom.content

unfoldable pub atom_send_error : M ConnIo (Unit {0})
unfolding atom_hdr
atom_send_error = conn_io_send (atom_hdr nabuctl_error 0)

abbrev pub terminated : ℕ → Bool
terminated type = type == nabuctl_type_string || type == nabuctl_type_number

-- The check of the data type against the length; 19 is `sizeof("0xffffffffffffffff")`.
unfoldable pub length_ok : ℕ → ℕ → Bool
length_ok type len =
    if type == nabuctl_type_void
    then len == 0
    else if type == nabuctl_type_string || type == nabuctl_type_blob
    then not (len == 0 || ltb 65536 len)
    else if type == nabuctl_type_number
    then not (len == 0 || ltb 19 len)
    else if type == nabuctl_type_bool
    then len == 1
    else false

-- Strings and numbers must have a nul terminator.
unfoldable pub nul_ok : ℕ → List ℕ → Bool
nul_ok type content = not (terminated type) || byte_at content (length content - 1) == 0

-- The part of `atom_recv` behind the checks of the header.
unfoldable pub recv_data : ℕ → ℕ → M ConnIo (Option Atom)
recv_data tag len = do
  (received, content) ← conn_io_recv len
  if received && nul_ok (nabuctl_type tag) content
      then pure (some (record { tag = tag; content = content }))
      else pure none

-- `alloc_ok` says whether there is memory for an atom of so many bytes.
unfoldable pub atom_recv : (ℕ → Bool) → M ConnIo (Option Atom)
atom_recv alloc_ok = do
  (received, hdr) ← conn_io_recv 8
  let tag = nabu_get_uint32_be hdr
  let len = nabu_get_uint32_be (drop 4 hdr)
  if not received || not (length_ok (nabuctl_type tag) len) || not (alloc_ok len)
      then pure none
      else if len == 0
      then pure (some (record { tag = tag; content = [] }))
      else recv_data tag len

-- The list in its order; the counter is its length.
abbrev send_each : List Atom → M ConnIo (Unit {0})
send_each [] = pure tt
send_each (atom ∷ atoms) = atom_send atom >> send_each atoms

unfoldable pub atom_list_send : List Atom → M ConnIo Bool
atom_list_send atoms = do send_each atoms; read conn_io_check_state

-- What is stored for a tag: of a Boolean, only whether it is 0.
abbrev pub stored : ℕ → List ℕ → List ℕ
stored type [] = []
stored type (b ∷ bytes) =
    if type == nabuctl_type_bool then ((if b == 0 then 0 else 1) ∷ []) else b ∷ bytes
