-- ===== src/Nhacp/Reply.antt =====
-- nabud/nhacp.c: limits that depend on the version and options of a session, and the replies. The
-- length that is sent counts the type, the payload and the CRC.
use nabud.Prelude.{ℕ, ◌+◌, ◌-◌, ◌%◌, ◌^◌, List, [], ◌∷◌, Bool, false, ltb, leb, ◌==◌, ◌&&◌, not}
use nabud.Prelude.{if◌then◌else◌, bit_and}
use nabud.Prelude.Monad.{M, modify, read, assert, zoom, ◌>>=◌, ◌>>◌}
use nabud.Proto.{nabu_set_uint16, nabu_get_uint16}
use nabud.Crc8.{crc8_cdma2000_init, crc8_cdma2000_update, crc8_cdma2000_fini}
use nabud.ConnIo.{conn_io_send}
use nabud.Nhacp.{
  NhacpSession, Exchange, Buffer, store, fetch, with_buffer, at, nhacp_vers_0_0, nhacp_mtu,
}
use nabud.Nhacp.{nhacp_max_messagelen, nhacp_mtu_0_0, nhacp_max_payload_length, nhacp_option_crc8}
use nabud.Nhacp.Texts.{error_message, nhacp_string_set_limit, nhacp_strsize}

unfoldable pub nhacp_crc_len : ℕ → ℕ
nhacp_crc_len options = if bit_and options nhacp_option_crc8 == 0 then 0 else 1

-- `reqlen & 0x8000` of a `uint16_t` is a test that it is not below 0x8000.
unfoldable pub nhacp_reqlen_ok : NhacpSession → ℕ → Bool
nhacp_reqlen_ok s reqlen =
    if reqlen == 0
    then false
    else if s.nhacp_version == nhacp_vers_0_0
    then not (leb 0x8000 reqlen)
    else not (ltb nhacp_mtu reqlen)

abbrev pub nhacp_req_storage_get_type : ℕ
nhacp_req_storage_get_type = 0x02

abbrev pub nhacp_req_storage_put_type : ℕ
nhacp_req_storage_put_type = 0x03

-- Both of the structures that are subtracted have their sizes written out.
unfoldable pub nhacp_max_payload : NhacpSession → ℕ → ℕ
nhacp_max_payload s type =
    if type == nhacp_req_storage_get_type && s.nhacp_version == nhacp_vers_0_0
    then nhacp_mtu_0_0 - 3
    else if type == nhacp_req_storage_put_type && s.nhacp_version == nhacp_vers_0_0
    then nhacp_mtu_0_0 - 8
    else nhacp_max_payload_length

-- Where the CRC of the message in the buffer is: its last byte, as the length field counts.
unfoldable pub nhacp_crc_ptr : Buffer → ℕ
nhacp_crc_ptr buf = 3 + nabu_get_uint16 (fetch 0 2 buf) - 1 - 1

unfoldable pub crc8_of : List ℕ → ℕ
crc8_of bytes = crc8_cdma2000_fini (crc8_cdma2000_update bytes crc8_cdma2000_init)

-- The type and the length stored, and the CRC behind the message if there is to be one.
unfoldable pub finish_reply : ℕ → ℕ → ℕ → Buffer → Buffer
unfolding crc8_of nhacp_crc_ptr
finish_reply crclen type length buf =
    let framed = store 2 (type ∷ []) (store 0 (nabu_set_uint16 length) buf) in
    let crc_ptr = nhacp_crc_ptr framed in
    if crclen == 0 then framed else store crc_ptr (crc8_of (fetch 0 crc_ptr framed) ∷ []) framed

abbrev pub exchange_io : {A : Type 0} → M nabud.ConnIo.ConnIo A → M Exchange A
exchange_io = zoom (λ e. e.io) (λ e io. record e { io = io })

unfoldable pub nhacp_send_reply : ℕ → ℕ → M Exchange (Unit {0})
unfolding nhacp_crc_len finish_reply
nhacp_send_reply type length0 = do
  crclen ← read (λ e. nhacp_crc_len e.session.nhacp_options)
  let length = (length0 + crclen) % 2 ^ 16
  assert (leb length nhacp_max_messagelen)
  modify (with_buffer (finish_reply crclen type length))
  bytes ← read (at (fetch 0 (length + 2)))
  exchange_io (conn_io_send bytes)

unfoldable pub nhacp_send_error_details : ℕ → ℕ → M Exchange (Unit {0})
unfolding nhacp_send_reply error_message nhacp_string_set_limit
nhacp_send_error_details code max_message_length = do
  modify (with_buffer (store 3 (nabu_set_uint16 code)))
  modify (
      with_buffer (
        nhacp_string_set_limit 5 (if max_message_length == 0 then [] else error_message code)
          max_message_length))
  size ← read (at (nhacp_strsize 5))
  nhacp_send_reply 0x82 (4 + size)

unfoldable pub nhacp_send_error : ℕ → M Exchange (Unit {0})
unfolding nhacp_send_error_details
nhacp_send_error code = do
  version ← read (λ e. e.session.nhacp_version)
  nhacp_send_error_details code (if version == nhacp_vers_0_0 then 255 else 0)

unfoldable pub nhacp_send_ok : M Exchange (Unit {0})
unfolding nhacp_send_reply
nhacp_send_ok = nhacp_send_reply 0x81 1

unfoldable pub nhacp_send_data_buffer : ℕ → M Exchange (Unit {0})
unfolding nhacp_send_reply
nhacp_send_data_buffer length = do
  modify (with_buffer (store 3 (nabu_set_uint16 length)))
  nhacp_send_reply 0x84 (3 + length)
