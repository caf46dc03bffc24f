-- ===== src/Retronet/Preserved.antt =====
-- The handlers of requests on open files keep what is closed under their steps.
use nabud.Prelude.{ℕ, ◌-◌, ◌^◌, List, [], ◌∷◌, leb}
use nabud.Prelude.{Option, none, some}
use nabud.Proto.{byte_at, nabu_set_uint32}
use nabud.Nhacp.Files.{added_slot}
use nabud.Prelude.Monad.{modify}
use nabud.Prelude.Keeps.{Keeps-bind, Keeps-if, Keeps-modify}
use nabud.Stext.{ebusy, Result, ok, error, crashed, StextFile}
use nabud.Stext.Files.{stext_file_pread, stext_file_truncate}
use nabud.Stext.Open.{StextContext}
use nabud.Retronet.{RnExchange, FileioAttrs, with_stext, get16, get32, size_of_backing}
use nabud.Retronet.Names.{rn_file_getattr}
use nabud.Retronet.Open.{
  rn_req_file_open, rn_req_fh_size, rn_req_file_size, rn_req_fh_close, opened_reply, fh_size_found,
  close_found, open_anyway, open_flags, send_size, int32_size,
}
use nabud.Retronet.Transfers.{
  rn_req_fh_read, rn_req_fh_append, rn_req_fh_replace, rn_req_fh_truncate, read_reply, read_found,
  append_found, append_to, replace_found, truncate_found,
}
use nabud.Retronet.Closed.{
  Closed, Safe, nothing-Safe, fault-Safe, reading, on_request-Safe, found-Safe, on_filename-Safe,
  file_getattr-Keeps, transferring, file-Safe, pwrite_file-Safe, on_data-Safe,
}

module _ (I : RnExchange → Type 0) (cl : Closed I) where
  opened_reply-Safe :
      (before : StextContext) (r : Result (Unit {0})) (t : StextContext)
      → Safe I cl (opened_reply before (r, t))
  opened_reply-Safe before (ok x) t =
      Keeps-bind I (modify (with_stext t)) _ (Keeps-modify I (with_stext t) (cl.on_stext t))
        (λ u. cl.on_send (added_slot before.files t.files ∷ []))
  opened_reply-Safe before (error e) t =
      Keeps-bind I (modify (with_stext t)) _ (Keeps-modify I (with_stext t) (cl.on_stext t))
        (λ u. cl.on_send (0xff ∷ []))
  opened_reply-Safe before crashed t = fault-Safe I cl

  pub file_open-Safe : Safe I cl rn_req_file_open
  unfolding rn_req_file_open
  file_open-Safe = on_filename-Safe I cl _ (λ fname. on_request-Safe I cl 3 _ (λ req.
      reading I cl (λ e. e) _
        (λ e.
          let o =
            open_anyway (e.system.opening fname (open_flags (get16 0 req))) (byte_at req 2)
              e.ctx.stext in
          opened_reply-Safe e.ctx.stext o.0 o.1)))

  fh_size_found-Safe : (o : Option StextFile) → Safe I cl (fh_size_found o)
  fh_size_found-Safe none = cl.on_send _
  fh_size_found-Safe (some f) = record {
    run = λ e i.
        let size : Result ℕ = size_of_backing e.system.getattr f.backing in
        (cl.on_send (nabu_set_uint32 (int32_size size))).run e i;
  }

  pub fh_size-Safe : Safe I cl rn_req_fh_size
  unfolding rn_req_fh_size
  fh_size-Safe =
      on_request-Safe I cl 1 _ (λ req. found-Safe I cl (byte_at req 0) _ fh_size_found-Safe)

  named_size-Safe :
      (o : Option FileioAttrs)
      → Safe I cl (elim o [ none ↦ send_size (error ebusy) | some a ↦ send_size (ok a.size) ])
  named_size-Safe none = cl.on_send _
  named_size-Safe (some a) = cl.on_send _

  pub file_size-Safe : Safe I cl rn_req_file_size
  unfolding rn_req_file_size
  file_size-Safe = Keeps-bind I rn_file_getattr _ (file_getattr-Keeps I cl) named_size-Safe

  close_found-Safe : (o : Option StextFile) → Safe I cl (close_found o)
  close_found-Safe none = nothing-Safe I cl
  close_found-Safe (some f) = Keeps-modify I _ (λ e i. cl.on_stext _ e i)

  pub fh_close-Safe : Safe I cl rn_req_fh_close
  unfolding rn_req_fh_close
  fh_close-Safe =
      on_request-Safe I cl 1 _ (λ req. found-Safe I cl (byte_at req 0) _ close_found-Safe)

  read_reply-Safe : (stale : ℕ → List ℕ) (r : Result (List ℕ × ℕ)) → Safe I cl (read_reply stale r)
  read_reply-Safe stale (ok (got, n)) = cl.on_send _
  read_reply-Safe stale (error e) = cl.on_send _
  read_reply-Safe stale crashed = fault-Safe I cl

  read_found-Safe :
      (offset length : ℕ) (o : Option StextFile) → Safe I cl (read_found offset length o)
  read_found-Safe offset length none = cl.on_send _
  read_found-Safe offset length (some f) = transferring I cl _ (λ rounds. record {
    run = λ e i.
        let read = stext_file_pread rounds f.backing offset length in
        (read_reply-Safe e.system.stale_bytes read).run e i;
  })

  pub fh_read-Safe : Safe I cl rn_req_fh_read
  unfolding rn_req_fh_read
  fh_read-Safe = on_request-Safe I cl 7 _ (λ req.
      found-Safe I cl (byte_at req 0) _ (λ o. read_found-Safe (get32 1 req) (get16 5 req) o))

  append_to-Safe : (f : StextFile) (bytes : List ℕ) (r : Result ℕ) → Safe I cl (append_to f bytes r)
  append_to-Safe f bytes (ok size) =
      Keeps-if I (leb (2 ^ 32 - 1) size) _ _ (nothing-Safe I cl)
        (pwrite_file-Safe I cl f size bytes)
  append_to-Safe f bytes (error e) = nothing-Safe I cl
  append_to-Safe f bytes crashed = fault-Safe I cl

  append_found-Safe : (o : Option StextFile) (bytes : List ℕ) → Safe I cl (append_found o bytes)
  append_found-Safe none bytes = nothing-Safe I cl
  append_found-Safe (some f) bytes = record {
    run = λ e i. (append_to-Safe f bytes (size_of_backing e.system.getattr f.backing)).run e i;
  }

  pub fh_append-Safe : Safe I cl rn_req_fh_append
  unfolding rn_req_fh_append
  fh_append-Safe = on_request-Safe I cl 3 _ (λ req.
      found-Safe I cl (byte_at req 0) _
        (λ o. on_data-Safe I cl (get16 1 req) _ (append_found-Safe o)))

  replace_found-Safe :
      (o : Option StextFile) (offset : ℕ) (bytes : List ℕ)
      → Safe I cl (replace_found o offset bytes)
  replace_found-Safe none offset bytes = nothing-Safe I cl
  replace_found-Safe (some f) offset bytes = pwrite_file-Safe I cl f offset bytes

  pub fh_replace-Safe : Safe I cl rn_req_fh_replace
  unfolding rn_req_fh_replace
  fh_replace-Safe = on_request-Safe I cl 7 _ (λ req.
      found-Safe I cl (byte_at req 0) _
        (λ o. on_data-Safe I cl (get16 5 req) _ (replace_found-Safe o (get32 1 req))))

  truncate_found-Safe : (o : Option StextFile) → Safe I cl (truncate_found o)
  truncate_found-Safe none = nothing-Safe I cl
  truncate_found-Safe (some f) = record {
    run = λ e i.
        (file-Safe I cl f.slot (stext_file_truncate (e.system.truncate 0) f.backing 0).1).run e i;
  }

  pub fh_truncate-Safe : Safe I cl rn_req_fh_truncate
  unfolding rn_req_fh_truncate
  fh_truncate-Safe =
      on_request-Safe I cl 1 _ (λ req. found-Safe I cl (byte_at req 0) _ truncate_found-Safe)
