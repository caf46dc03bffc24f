-- ===== src/Nhacp/Handlers.antt =====
-- The other handlers of file requests, and the table of all of them: none receives anything.
use nabud.Prelude.{ℕ, zero, suc, ◌-◌, List, [], ◌∷◌}
use nabud.Prelude.{Option, none, some, get_elem?}
use nabud.Prelude.Monad.{M}
use nabud.Stext.{StextFile, stext_file_find}
use nabud.Nhacp.{Exchange, fetch}
use nabud.Nhacp.Paths.{
  nhacp_req_get_date_time, nhacp_req_file_close, nhacp_req_get_error_details, close_found,
}
use nabud.Nhacp.Paths.{nhacp_req_file_set_size, nhacp_req_remove, nhacp_req_rename, nhacp_req_mkdir}
use nabud.Proto.{nabu_get_uint16}
use nabud.Stext.Files.{stext_file_truncate}
use nabud.Nhacp.Requests.{file_requests, file_request, handler_or_fault}
use nabud.Nhacp.Quiet.{NoReception, send_reply-NoReception, send_details-NoReception}
use nabud.Nhacp.Quiet.{answer-NoReception}
use nabud.Nhacp.Quiet.{on_file-NoReception}
use nabud.Nhacp.TransferHandlers.{
  open-NoReception, get-NoReception, put-NoReception, get_block-NoReception, put_block-NoReception,
  offset_of,
}

date_time-NoReception : NoReception nhacp_req_get_date_time
unfolding nhacp_req_get_date_time
date_time-NoReception n = record { run = λ e i. (send_reply-NoReception 0x85 15 n).run _ i }

close_found-NoReception : (o : Option StextFile) → NoReception (close_found o)
close_found-NoReception none n = record { run = λ e i. i }
close_found-NoReception (some f) n = record { run = λ e i. i }

close-NoReception : NoReception nhacp_req_file_close
unfolding nhacp_req_file_close
close-NoReception n = record {
  run = λ e i.
      (close_found-NoReception (stext_file_find (e.session.buffer 3) e.session.stext.files) n).run e
        i;
}

error_details-NoReception : NoReception nhacp_req_get_error_details
unfolding nhacp_req_get_error_details
error_details-NoReception n = record {
  run = λ e i.
      (send_details-NoReception (nabu_get_uint16 (fetch 3 2 e.session.buffer)) (e.session.buffer 5)
          n).run
        e i;
}

set_size-NoReception : NoReception nhacp_req_file_set_size
unfolding nhacp_req_file_set_size offset_of
set_size-NoReception = on_file-NoReception _ (λ f n. record {
  run = λ e i.
      let size : ℕ = offset_of e in
      (answer-NoReception (stext_file_truncate (e.system.truncate size) f.backing size).0 n).run _
        i;
})

remove-NoReception : NoReception nhacp_req_remove
unfolding nhacp_req_remove
remove-NoReception n = record { run = λ e i. (answer-NoReception _ n).run e i }

rename-NoReception : NoReception nhacp_req_rename
unfolding nhacp_req_rename
rename-NoReception n = record { run = λ e i. (answer-NoReception _ n).run e i }

mkdir-NoReception : NoReception nhacp_req_mkdir
unfolding nhacp_req_mkdir
mkdir-NoReception n = record { run = λ e i. (answer-NoReception _ n).run e i }

data AllQuiet : List (M Exchange (Unit {0})) → Type 0 where
  none_more : AllQuiet []
  ◌▹◌ :
      {m : M Exchange (Unit {0})}
      → {ms : List (M Exchange (Unit {0}))} → NoReception m
      → AllQuiet ms
      → AllQuiet (m ∷ ms)

infixr 20 ◌▹◌
module _ (adapter_id : List ℕ) (other_request : ℕ → M Exchange (Unit {0})) where
  handler-NoReception :
      (ms : List (M Exchange (Unit {0}))) (i : ℕ)
      → AllQuiet ms
      → NoReception (handler_or_fault adapter_id other_request (get_elem? ms i))
  handler-NoReception [] i none_more n = record { run = λ e j. tt }
  handler-NoReception (m ∷ ms) zero (h ▹ k) n = h n
  handler-NoReception (m ∷ ms) (suc i) (h ▹ k) n = handler-NoReception ms i k n

  -- If the handlers that are not modelled receive nothing, then no handler of the table does.
  pub file_request-NoReception :
      ((type : ℕ) → NoReception (other_request type))
      → (type : ℕ) → NoReception (file_request adapter_id other_request type)
  unfolding file_request
  file_request-NoReception h type =
      handler-NoReception (file_requests adapter_id other_request) (type - 1) (
        open-NoReception
        ▹ get-NoReception
        ▹ put-NoReception
        ▹ date_time-NoReception
        ▹ close-NoReception
        ▹ error_details-NoReception
        ▹ get_block-NoReception
        ▹ put_block-NoReception
        ▹ h 0x09
        ▹ h 0x0a
        ▹ h 0x0b
        ▹ h 0x0c
        ▹ set_size-NoReception
        ▹ h 0x0e
        ▹ h 0x0f
        ▹ remove-NoReception
        ▹ rename-NoReception
        ▹ mkdir-NoReception
        ▹ none_more)
