-- ===== src/Retronet/Serve.antt =====
-- nabud/retronet.c: the table of handlers, and `retronet_request`.
use nabud.Prelude.{ℕ, ◌+◌, ◌-◌, ◌%◌, List, [], ◌∷◌, Bool, true, false, not, ◌&&◌, leb, ltb}
use nabud.Prelude.{if◌then◌else◌, Option, none, some, get_elem?, length}
use nabud.Prelude.Monad.{M, fault, pure, read, zoom, ◌>>=◌, ◌>>◌}
use nabud.ConnIo.{ConnIo}
use nabud.Retronet.{RnExchange, RnSystem, RetronetContext, PathCall}
use nabud.Retronet.Open.{rn_req_file_open, rn_req_fh_size, rn_req_file_size, rn_req_fh_close}
use nabud.Retronet.Transfers.{
  rn_req_fh_read, rn_req_fh_append, rn_req_fh_replace, rn_req_fh_truncate,
}
use nabud.Retronet.Shift.{rn_req_fh_insert, rn_req_fh_delete_range}
use nabud.Retronet.Copy.{rn_req_file_copy}
use nabud.Retronet.Moves.{rn_req_file_delete, rn_req_file_move}
use nabud.Retronet.Lists.{rn_req_file_list, rn_req_file_list_item}

abbrev pub nabu_msg_rn_first : ℕ
nabu_msg_rn_first = 0xa3

abbrev pub nabu_msg_rn_last : ℕ
nabu_msg_rn_last = 0xb6

-- What RetroNet works on of `struct nabu_connection`; there is no context before the first request.
pub record RetronetConn : Type 0 where
  pub io : ConnIo
  pub retronet_enabled : Bool
  pub retronet : Option RetronetContext
  pub file_root : Option (List ℕ)
  pub system : RnSystem
  pub calls : List PathCall

abbrev pub new_context : RetronetContext
new_context = record {
  stext = record { files = []; handles = 0 };
  file_list = [];
  file_list_count = 0;
  cached_entry = none;
}

abbrev pub exchange_of : RetronetContext → RetronetConn → RnExchange
exchange_of ctx c = record {
  ctx = ctx;
  io = c.io;
  file_root = c.file_root;
  system = c.system;
  calls = c.calls;
}

abbrev pub after_exchange : RetronetConn → RnExchange → RetronetConn
after_exchange c e = record c {
  io = e.io;
  retronet = some e.ctx;
  system = e.system;
  calls = e.calls;
}

abbrev pub Handler : Type 0
Handler = M RnExchange (Unit {0})

-- The handlers that are not modelled are a parameter, by their message.
module _ (other_request : ℕ → M RnExchange (Unit {0})) where
  -- `retronet_request_types`; no message is 0xa6.
  abbrev pub retronet_request_types : List (Option Handler)
  retronet_request_types =
      some rn_req_file_open
      ∷ some rn_req_fh_size
      ∷ some rn_req_fh_read
      ∷ none
      ∷ some rn_req_fh_close
      ∷ some rn_req_file_size
      ∷ some rn_req_fh_append
      ∷ some rn_req_fh_insert
      ∷ some rn_req_fh_delete_range
      ∷ some rn_req_fh_replace
      ∷ some rn_req_file_delete
      ∷ some rn_req_file_copy
      ∷ some rn_req_file_move
      ∷ some rn_req_fh_truncate
      ∷ some rn_req_file_list
      ∷ some rn_req_file_list_item
      ∷ some (other_request 0xb3)
      ∷ some (other_request 0xb4)
      ∷ some (other_request 0xb5)
      ∷ some (other_request 0xb6)
      ∷ []

  -- The context is made at the first request.
  abbrev pub with_retronet : Bool → Handler → Option RetronetContext → M RetronetConn Bool
  with_retronet calloc_ok handle (some ctx) =
      zoom (exchange_of ctx) after_exchange handle >> pure true
  with_retronet calloc_ok handle none =
      if calloc_ok
      then zoom (exchange_of new_context) after_exchange handle >> pure true
      else pure true

  -- A place behind the end of the table would be read where `idx` is its length.
  abbrev pub handled : Option (Option Handler) → M RetronetConn Bool
  handled none = λ c. fault
  handled (some none) = pure false
  handled (some (some handle)) = do
    c ← read (λ c. c)
    with_retronet c.system.malloc_ok handle c.retronet

  unfoldable pub retronet_request : ℕ → M RetronetConn Bool
  retronet_request msg = do
    enabled ← read (λ c. c.retronet_enabled)
    let idx = (msg + 256 - nabu_msg_rn_first) % 256
    if not (leb nabu_msg_rn_first msg && leb msg nabu_msg_rn_last)
        then pure false
        else if not enabled
        then pure false
        else if ltb (length retronet_request_types) idx
        then pure false
        else handled (get_elem? retronet_request_types idx)
