-- ===== src/Nhacp/Quiet.antt =====
-- The handlers of file requests receive nothing: they leave the rounds of reception to come, or fewer.
use nabud.Prelude.{ℕ, ◌+◌, ◌%◌, ◌^◌, ◌≤◌, List, Bool, leb, ltb, ◌==◌, if◌then◌else◌}
use nabud.Prelude.{Option, none, some}
use nabud.Prelude.Monad.{M, Outcome, done, blocked, fault}
use nabud.Prelude.Keeps.{Keeps, Kept, Keeps-if, Kept-assert}
use nabud.Prelude.Measure.{Within, Within-mono}
use nabud.ConnIo.{ConnIo, conn_io_send}
use nabud.ConnIo.Rounds.{rounds_left, send-Quiet}
use nabud.Stext.{Errno, Result, ok, error, crashed, StextFile, stext_file_find}
use nabud.Stext.Files.{stext_file_pread, stext_file_pwrite}
use nabud.Nhacp.{Exchange, with_buffer, fetch, next_transfer, without_transfer}
use nabud.Stext.Files.{first_rounds}
use nabud.Nhacp.{nhacp_max_messagelen, nhacp_vers_0_0}
use nabud.Nhacp.Texts.{nhacp_ebadf, nhacp_eisdir, nhacp_einval, nhacp_error_from_unix, errno_number}
use nabud.Nhacp.Reply.{nhacp_send_reply, nhacp_crc_len, finish_reply, exchange_io, nhacp_send_error}
use nabud.Nhacp.Reply.{
  nhacp_send_error_details, nhacp_send_ok, nhacp_send_data_buffer, nhacp_max_payload,
}
use nabud.Nhacp.Files.{answer, on_file, checked_file, limit_payload, pread_file, pread_done}
use nabud.Nhacp.Files.{pwrite_file}

-- At most `n` rounds are to come.
abbrev pub AtMost : ℕ → Exchange → Type 0
AtMost n e = rounds_left e.io ≤ n

abbrev pub NoReception : M Exchange (Unit {0}) → Type 0
NoReception m = (n : ℕ) → Keeps (AtMost n) m

sent_within :
    (n : ℕ) (e : Exchange) (o : Outcome (Unit {0} × ConnIo))
    → Within rounds_left n o
    → Kept
        (AtMost n)
        (elim o [ done (a, t) ↦ done (a, record e { io = t }) | blocked ↦ blocked | fault ↦ fault ])
sent_within n e (done (a, t)) h = h
sent_within n e blocked h = tt
sent_within n e fault h = tt

send_bytes-NoReception : (bytes : List ℕ) → NoReception (exchange_io (conn_io_send bytes))
send_bytes-NoReception bytes n = record {
  run = λ e h. sent_within n e (conn_io_send bytes e.io) (
      Within-mono rounds_left (rounds_left e.io) n (conn_io_send bytes e.io) h
        ((send-Quiet bytes).run e.io));
}

pub send_reply-NoReception : (type length : ℕ) → NoReception (nhacp_send_reply type length)
unfolding nhacp_send_reply
send_reply-NoReception type length0 n = record {
  run = λ e h.
      let crclen : ℕ = nhacp_crc_len e.session.nhacp_options in
      let length : ℕ = (length0 + crclen) % 2 ^ 16 in
      let framed : Exchange = with_buffer (finish_reply crclen type length) e in
      Kept-assert (AtMost n) (leb length nhacp_max_messagelen) _ e (λ fits.
        (send_bytes-NoReception (fetch 0 (length + 2) framed.session.buffer) n).run framed h);
}

pub send_details-NoReception : (code limit : ℕ) → NoReception (nhacp_send_error_details code limit)
unfolding nhacp_send_error_details
send_details-NoReception code limit n = record {
  run = λ e h. (send_reply-NoReception 0x82 _ n).run _ h;
}

pub send_error-NoReception : (code : ℕ) → NoReception (nhacp_send_error code)
unfolding nhacp_send_error
send_error-NoReception code n = record {
  run = λ e h.
      (send_details-NoReception code (if e.session.nhacp_version == nhacp_vers_0_0 then 255 else 0)
          n).run
        e h;
}

pub send_ok-NoReception : NoReception nhacp_send_ok
unfolding nhacp_send_ok
send_ok-NoReception = send_reply-NoReception 0x81 1

pub send_data-NoReception : (length : ℕ) → NoReception (nhacp_send_data_buffer length)
unfolding nhacp_send_data_buffer
send_data-NoReception length n = record {
  run = λ e h. (send_reply-NoReception 0x84 (3 + length) n).run _ h;
}

pub answer-NoReception : (o : Option Errno) → NoReception (answer o)
answer-NoReception none = send_ok-NoReception
answer-NoReception (some e) = send_error-NoReception (nhacp_error_from_unix (errno_number e))

pub if-NoReception :
    (b : Bool) (m k : M Exchange (Unit {0}))
    → NoReception m
    → NoReception k
    → NoReception (if b then m else k)
if-NoReception b m k h h' n = Keeps-if (AtMost n) b m k (h n) (h' n)

found-NoReception :
    (handle : StextFile → M Exchange (Unit {0})) (o : Option StextFile)
    → ((f : StextFile) → NoReception (handle f))
    → NoReception (checked_file handle o)
found-NoReception handle none h n = send_error-NoReception nhacp_ebadf n
found-NoReception handle (some f) h n = record {
  run = λ e i.
      (if-NoReception (e.session.privates f.slot).is_directory (nhacp_send_error nhacp_eisdir)
          (handle f) (send_error-NoReception nhacp_eisdir) (h f) n).run
        e i;
}

pub on_file-NoReception :
    (handle : StextFile → M Exchange (Unit {0}))
    → ((f : StextFile) → NoReception (handle f))
    → NoReception (on_file handle)
unfolding on_file
on_file-NoReception handle h n = record {
  run = λ e i.
      (found-NoReception handle (stext_file_find (e.session.buffer 3) e.session.stext.files) h
          n).run
        e i;
}

pub limit-NoReception :
    (type length : ℕ) (body : M Exchange (Unit {0}))
    → NoReception body
    → NoReception (limit_payload type length body)
unfolding limit_payload
limit-NoReception type length body h n = record {
  run = λ e i.
      (if-NoReception (ltb (nhacp_max_payload e.session type) length)
          (nhacp_send_error nhacp_einval) body (send_error-NoReception nhacp_einval) h n).run
        e i;
}

pread_done-NoReception :
    (k : ℕ → M Exchange (Unit {0})) (r : Result (List ℕ × ℕ))
    → ((m : ℕ) → NoReception (k m))
    → NoReception (pread_done k r)
pread_done-NoReception k (ok (got, m)) h n = record { run = λ e i. (h m n).run _ i }
pread_done-NoReception k (error e) h n = answer-NoReception (some e) n
pread_done-NoReception k crashed h n = record { run = λ e i. tt }

pub pread-NoReception :
    (f : StextFile) (offset length : ℕ) (k : ℕ → M Exchange (Unit {0}))
    → ((m : ℕ) → NoReception (k m))
    → NoReception (pread_file f offset length k)
unfolding pread_file next_transfer
pread-NoReception f offset length k h n = record {
  run = λ e i.
      (pread_done-NoReception k
          (stext_file_pread (first_rounds e.system.transfers) f.backing offset length) h n).run
        (without_transfer e) i;
}

pub pwrite-NoReception :
    (f : StextFile) (offset : ℕ) (bytes : List ℕ) → NoReception (pwrite_file f offset bytes)
unfolding pwrite_file next_transfer
pwrite-NoReception f offset bytes n = record {
  run = λ e i.
      (answer-NoReception
          (stext_file_pwrite (first_rounds e.system.transfers) f.backing offset bytes).0 n).run
        _ i;
}
