-- ===== src/Nhacp/TransferHandlers.antt =====
-- The handlers of files and their transfers, one by one: none of them receives anything.
use nabud.Prelude.{ℕ, ◌*◌, ◌%◌, ◌^◌, List, ltb, ◌==◌, if◌then◌else◌}
use nabud.Prelude.{Option, none, some}
use nabud.Prelude.Monad.{read, ◌>>=◌}
use nabud.Stext.{Result, ok, error, crashed, StextFile}
use nabud.Stext.Open.{StextContext, stext_file_open}
use nabud.Nhacp.{Exchange, Opening, fetch, at, nhacp_vers_0_0}
use nabud.Nhacp.Texts.{nhacp_einval, nhacp_error_from_unix, nhacp_strlen, nhacp_string_get, codes}
use nabud.Nhacp.Reply.{nhacp_send_error, nhacp_send_data_buffer}
use nabud.Nhacp.Files.{
  with_stext, nhacp_req_storage_open, nhacp_req_storage_get, nhacp_req_storage_put, open_with,
}
use nabud.Nhacp.Files.{nhacp_req_storage_get_block, nhacp_req_storage_put_block, opened_file}
use nabud.Nhacp.Files.{send_block, get_block, block_too_far, limit_payload, pwrite_file, pread_file}
use nabud.Nhacp.Files.{nhacp_o_flags_to_fileio}
use nabud.Proto.{nabu_get_uint16, nabu_get_uint32}
use nabud.Nhacp.Reply.{nhacp_req_storage_get_type, nhacp_req_storage_put_type}
use nabud.Nhacp.Quiet.{NoReception, send_reply-NoReception}
use nabud.Nhacp.Quiet.{
  send_error-NoReception, send_data-NoReception, answer-NoReception, if-NoReception,
}
use nabud.Nhacp.Quiet.{
  on_file-NoReception, limit-NoReception, pread-NoReception, pwrite-NoReception,
}

opened-NoReception :
    (o : Opening) (before : List StextFile) (r : Result (Unit {0})) (t : StextContext)
    → NoReception (opened_file o before (r, t))
opened-NoReception o before (ok x) t n = record {
  run = λ e i. (send_reply-NoReception 0x83 6 n).run _ i;
}
opened-NoReception o before (error e) t n = record {
  run = λ s i. (answer-NoReception (some e) n).run (with_stext t s) i;
}
opened-NoReception o before crashed t n = record { run = λ e i. tt }

open_with-NoReception :
    (slot : ℕ) (o : Option ℕ) (url : List ℕ) → NoReception (open_with slot o url)
open_with-NoReception slot none url n = send_error-NoReception (nhacp_error_from_unix 22) n
open_with-NoReception slot (some flags) url n = record {
  run = λ e i.
      let o : Opening = e.system.opening url flags in
      let r = stext_file_open o.calloc_ok o.result slot e.session.stext in
      (opened-NoReception o e.session.stext.files r.0 r.1 n).run e i;
}

pub open-NoReception : NoReception nhacp_req_storage_open
unfolding nhacp_req_storage_open
open-NoReception n = record {
  run = λ e i.
      let requested : ℕ = nabu_get_uint16 (fetch 4 2 e.session.buffer) in
      let flags : ℕ = if e.session.nhacp_version == nhacp_vers_0_0 then 0x12 else requested in
      let text : List ℕ = nhacp_string_get 6 e.session.buffer in
      let url : List ℕ = if nhacp_strlen 6 e.session.buffer == 0 then codes "." else text in
      (open_with-NoReception (e.session.buffer 3) (nhacp_o_flags_to_fileio flags) url n).run e i;
}

-- The fields of a transfer, as the handlers read them.
unfoldable pub offset_of : Exchange → ℕ
offset_of e = nabu_get_uint32 (fetch 4 4 e.session.buffer)

length_of : Exchange → ℕ
length_of e = nabu_get_uint16 (fetch 8 2 e.session.buffer)

pub get-NoReception : NoReception nhacp_req_storage_get
unfolding nhacp_req_storage_get offset_of length_of
get-NoReception = on_file-NoReception _ (λ f n. record {
  run = λ e i.
      (limit-NoReception nhacp_req_storage_get_type (length_of e)
          (pread_file f (offset_of e) (length_of e) nhacp_send_data_buffer)
          (pread-NoReception f (offset_of e) (length_of e) nhacp_send_data_buffer
            send_data-NoReception)
          n).run
        e i;
})

-- The data of a request, written.
put_data-NoReception :
    (f : StextFile) (offset length : ℕ)
    → NoReception (read (at (fetch 10 length)) >>= pwrite_file f offset)
put_data-NoReception f offset length n = record {
  run = λ e i. (pwrite-NoReception f offset (fetch 10 length e.session.buffer) n).run e i;
}

pub put-NoReception : NoReception nhacp_req_storage_put
unfolding nhacp_req_storage_put offset_of length_of
put-NoReception = on_file-NoReception _ (λ f n. record {
  run = λ e i.
      (limit-NoReception nhacp_req_storage_put_type (length_of e)
          (read (at (fetch 10 (length_of e))) >>= pwrite_file f (offset_of e))
          (put_data-NoReception f (offset_of e) (length_of e)) n).run
        e i;
})

block-NoReception : (save_blklen blklen : ℕ) → NoReception (send_block save_blklen blklen)
unfolding send_block
block-NoReception save_blklen blklen = if-NoReception (blklen == 0) _ _ (send_data-NoReception 0) (
    if-NoReception (blklen == save_blklen) _ _ (send_data-NoReception save_blklen) (
      if-NoReception (ltb blklen save_blklen) _ _
        (λ n. record { run = λ e i. (send_data-NoReception save_blklen n).run _ i })
        (λ n. record { run = λ e i. tt })))

get_body-NoReception : (f : StextFile) (blkno blklen : ℕ) → NoReception (get_block f blkno blklen)
get_body-NoReception f blkno blklen =
    if-NoReception (block_too_far blkno blklen) _ _ (send_error-NoReception nhacp_einval) (
      limit-NoReception 0x07 blklen _ (
        pread-NoReception f (blkno * blklen % 2 ^ 32) blklen (send_block blklen)
          (block-NoReception blklen)))

pub get_block-NoReception : NoReception nhacp_req_storage_get_block
unfolding nhacp_req_storage_get_block offset_of length_of
get_block-NoReception =
    on_file-NoReception _ (λ f n. record {
      run = λ e i. (get_body-NoReception f (offset_of e) (length_of e) n).run e i;
    })

put_body-NoReception :
    (f : StextFile) (blkno blklen : ℕ)
    → NoReception (
        if block_too_far blkno blklen
        then nhacp_send_error nhacp_einval
        else limit_payload 0x08 blklen
            (read (at (fetch 10 blklen)) >>= pwrite_file f (blkno * blklen % 2 ^ 32)))
put_body-NoReception f blkno blklen =
    if-NoReception (block_too_far blkno blklen) _ _ (send_error-NoReception nhacp_einval)
      (limit-NoReception 0x08 blklen _ (put_data-NoReception f (blkno * blklen % 2 ^ 32) blklen))

pub put_block-NoReception : NoReception nhacp_req_storage_put_block
unfolding nhacp_req_storage_put_block offset_of length_of
put_block-NoReception =
    on_file-NoReception _ (λ f n. record {
      run = λ e i. (put_body-NoReception f (offset_of e) (length_of e) n).run e i;
    })
