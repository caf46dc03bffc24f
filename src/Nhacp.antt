-- ===== src/Nhacp.antt =====
-- nabud/nhacp.c: the NHACP sessions of a connection and the requests on them, with the constants of
-- libnabud/nhacp_proto.h. This file has the state and the message buffer; `Texts` has the counted
-- strings and the error codes, `Reply` the replies, `Sessions` the contexts of a connection, `Files`
-- the handlers of the file requests, and `Requests` the check of a request and its processing.

pub mod Memory
pub mod Texts
pub mod Reply
pub mod Sessions
pub mod Files
pub mod Paths
pub mod Requests
pub mod Serve
pub mod Sound
pub mod Invariant
pub mod Quiet
pub mod TransferHandlers
pub mod Handlers
pub mod Closed
pub mod Preserved
pub mod Rounds
pub mod Ending
pub mod Service
pub mod Contexts
pub mod Frames
pub mod Tables
pub mod Transfers
pub mod Blocks
pub mod Puts
mod Tests
pub mod Crash
pub mod Allocation
use nabud.Prelude.{
  ℕ, ◌+◌, ◌-◌, List, [], ◌∷◌, Bool, zero, suc, get_or, ltb, if◌then◌else◌, Option, ◌⊎◌,
}
use nabud.Prelude.Monad.{M, done}
use nabud.ConnIo.{ConnIo}
use nabud.Stext.Files.{Round}
use nabud.Stext.Files.{first_rounds, later_rounds}
use nabud.Stext.Open.{StextContext, FileioOpened}

abbrev pub nhacp_mtu : ℕ
nhacp_mtu = 8256

abbrev pub nhacp_max_payload_length : ℕ
nhacp_max_payload_length = 8192

abbrev pub nhacp_mtu_0_0 : ℕ
nhacp_mtu_0_0 = 0x7fff

abbrev pub nhacp_max_messagelen : ℕ
nhacp_max_messagelen = nhacp_mtu_0_0

abbrev pub nhacp_vers_0_0 : ℕ
nhacp_vers_0_0 = 0x0000

abbrev pub nhacp_vers_0_1 : ℕ
nhacp_vers_0_1 = 0x0001

abbrev pub nhacp_option_crc8 : ℕ
nhacp_option_crc8 = 0x0001

abbrev pub nhacp_session_system : ℕ
nhacp_session_system = 0x00

abbrev pub nhacp_session_create : ℕ
nhacp_session_create = 0xff

-- The bytes of the union `request`/`reply`, which both begin with the two bytes of `length`.
abbrev pub Buffer : Type 0
Buffer = ℕ → ℕ

-- `memcpy` of `bytes` to the offset.
unfoldable pub store : ℕ → List ℕ → Buffer → Buffer
store offset bytes buf i = if ltb i offset then buf i else get_or bytes (i - offset) (buf i)

-- The `n` bytes at an offset.
unfoldable pub fetch : ℕ → ℕ → Buffer → List ℕ
fetch offset zero buf = []
fetch offset (suc n) buf = buf offset ∷ fetch (offset + 1) n buf

-- `struct nhacp_file_private`, without its list of directory entries.
pub record NhacpFilePrivate : Type 0 where
  pub is_directory : Bool
  pub is_writable : Bool

-- What the handlers of requests work on of `struct nhacp_context`. The private data of an open file
-- are found by its slot.
pub record NhacpSession : Type 0 where
  pub stext : StextContext
  pub privates : ℕ → NhacpFilePrivate
  pub nhacp_version : ℕ
  pub nhacp_options : ℕ
  pub buffer : Buffer

-- `struct nhacp_context`. `address` is the pointer to it.
pub record NhacpContext : Type 0 where
  pub address : ℕ
  pub linked : Bool
  pub session_id : ℕ
  pub timo : ℕ
  pub session : NhacpSession

-- What a call of `stext_file_open` meets: whether there is memory, what `fileio_open` gives, and the
-- attributes of the file.
pub record Opening : Type 0 where
  pub calloc_ok : Bool
  pub result : FileioOpened
  pub is_directory : Bool
  pub is_writable : Bool

-- What is outside of NHACP and stext: `opening` for a location and the flags of fileio, a script of
-- rounds for each transfer to come, the path that `fileio_resolve_path` finds for a name, the system
-- calls on paths, `fileio_truncate` and the date and time, as 14 digits. A number is an error number.
pub record System : Type 0 where
  pub opening : List ℕ → ℕ → Opening
  pub transfers : List (List Round)
  pub resolve_path : List ℕ → ℕ ⊎ List ℕ
  pub unlink : List ℕ → Option ℕ
  pub rmdir : List ℕ → Option ℕ
  pub mkdir : List ℕ → Option ℕ
  pub rename : List ℕ → List ℕ → Option ℕ
  pub truncate : ℕ → Option ℕ
  pub date_time : Buffer

-- What a handler of a file request works on: one session, and the connection.
pub record Exchange : Type 0 where
  pub session : NhacpSession
  pub io : ConnIo
  pub system : System

abbrev pub without_transfer : Exchange → Exchange
without_transfer e = record e {
  system = record e.system { transfers = later_rounds e.system.transfers };
}

-- The rounds of the next transfer; after the script every transfer is whole.
unfoldable pub next_transfer : M Exchange (List Round)
next_transfer e = done (first_rounds e.system.transfers, without_transfer e)

abbrev pub with_buffer : (Buffer → Buffer) → Exchange → Exchange
with_buffer f e = let s = e.session in record e { session = record s { buffer = f s.buffer } }

abbrev pub at : {A : Type 0} → (Buffer → A) → Exchange → A
at f e = f e.session.buffer
