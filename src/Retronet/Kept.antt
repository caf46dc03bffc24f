-- ===== src/Retronet/Kept.antt =====
-- The handlers of the other requests, and `retronet_request`, keep what is closed under their steps.
use nabud.Prelude.{ℕ, ◌+◌, ◌-◌, ◌%◌, ◌^◌, List, leb, ◌==◌}
use nabud.Prelude.{Option, none, some, ◌⊎◌}
use nabud.Proto.{byte_at, nabu_set_uint16}
use nabud.Prelude.Monad.{M, pure, modify, ◌>>=◌}
use nabud.Prelude.Keeps.{Keeps, Keeps-bind, Keeps-if, Keeps-modify}
use nabud.Stext.{Result, ok, error, crashed, StextFile, Backing}
use nabud.Stext.Files.{stext_file_truncate}
use nabud.Retronet.{RnExchange, PathCall, get16, get32, size_of_backing}
use nabud.Retronet.Names.{rn_file_copy_move_getargs, resolve}
use nabud.Retronet.Shift.{
  rn_req_fh_insert, rn_req_fh_delete_range, delete_found, delete_from, shifted_down, truncate_to,
  Ended, finished, given_up, insert_found, insert_into, shifted_up, Shifting,
}
use nabud.Prelude.{inl, inr, length, suc}
use nabud.Stext.Open.{FileioOpened, not_opened, opened}
use nabud.Retronet.{unlink, write_file}
use nabud.Retronet.Copy.{
  rn_req_file_copy, copy_loop, copy_to, copy_files, copy_ended, CopyEnd, complete, broken,
}
use nabud.Retronet.Closed.{transferring}
use nabud.Retronet.Moves.{rn_req_file_delete, rn_req_file_move, called}
use nabud.Retronet.Lists.{
  rn_req_file_list, rn_req_file_list_item, with_context, rn_file_list_free, listed,
}
use nabud.Retronet.Closed.{
  Closed, Safe, nothing-Safe, fault-Safe, blocked-Safe, reading, on_request-Safe, found-Safe,
  on_filename-Safe, getargs-Keeps, file-Safe, pwrite_file-Safe, on_data-Safe,
}
use nabud.Retronet.Moves.{delete_call, move_call}
use nabud.Retronet.Shift.{not_allowed, put_back}
use nabud.Retronet.Lists.{item_details}

module _ (I : RnExchange → Type 0) (cl : Closed I) where
  put_back-Safe : (f : StextFile) (s : Shifting) → Safe I cl (modify (put_back f s))
  put_back-Safe f (b, ts) = Keeps-modify I _ (λ e i. cl.on_transfers ts _ (cl.on_stext _ e i))

  truncate_to-Safe : (f : StextFile) (b : Backing) (size : ℕ) → Safe I cl (truncate_to f b size)
  truncate_to-Safe f b size =
      reading I cl (λ e. e.system.truncate size) _
        (λ refused. file-Safe I cl f.slot (stext_file_truncate refused b size).1)

  shifted_down-Safe :
      (f : StextFile) (newsize : ℕ) (o : Option Ended) → Safe I cl (shifted_down f newsize o)
  shifted_down-Safe f newsize none = blocked-Safe I cl
  shifted_down-Safe f newsize (some (finished s)) =
      Keeps-bind I (modify (put_back f s)) _ (put_back-Safe f s)
        (λ u. truncate_to-Safe f s.0 newsize)
  shifted_down-Safe f newsize (some (given_up s)) =
      Keeps-bind I (modify (put_back f s)) _ (put_back-Safe f s)
        (λ u. truncate_to-Safe f s.0 newsize)

  delete_from-Safe :
      (f : StextFile) (offset len : ℕ) (r : Result ℕ) → Safe I cl (delete_from f offset len r)
  delete_from-Safe f offset len (error e) = nothing-Safe I cl
  delete_from-Safe f offset len crashed = fault-Safe I cl
  delete_from-Safe f offset len (ok size) = Keeps-if I (leb size offset) _ _ (nothing-Safe I cl) (
      Keeps-if I (leb (size - offset) len) _ _ (truncate_to-Safe f f.backing offset) (
        Keeps-if I (leb ((offset + len) % 2 ^ 32) offset) _ _ (fault-Safe I cl)
          (reading I cl (λ e. e) _ (λ e. shifted_down-Safe f _ _))))

  delete_found-Safe :
      (offset len : ℕ) (o : Option StextFile) → Safe I cl (delete_found offset len o)
  delete_found-Safe offset len none = nothing-Safe I cl
  delete_found-Safe offset len (some f) = Keeps-if I (len == 0) _ _ (nothing-Safe I cl) (
      reading I cl (λ e. size_of_backing e.system.getattr f.backing) _
        (delete_from-Safe f offset len))

  pub fh_delete_range-Safe : Safe I cl rn_req_fh_delete_range
  unfolding rn_req_fh_delete_range
  fh_delete_range-Safe =
      on_request-Safe I cl 7 _
        (λ req. found-Safe I cl (byte_at req 0) _ (delete_found-Safe (get32 1 req) (get16 5 req)))

  shifted_up-Safe :
      (f : StextFile) (offset : ℕ) (bytes : List ℕ) (o : Option Ended)
      → Safe I cl (shifted_up f offset bytes o)
  shifted_up-Safe f offset bytes none = blocked-Safe I cl
  shifted_up-Safe f offset bytes (some (given_up s)) = put_back-Safe f s
  shifted_up-Safe f offset bytes (some (finished s)) =
      Keeps-bind I (modify (put_back f s)) _ (put_back-Safe f s)
        (λ u. pwrite_file-Safe I cl (record f { backing = s.0 }) offset bytes)

  insert_into-Safe :
      (f : StextFile) (offset len : ℕ) (bytes : List ℕ) (r : Result ℕ)
      → Safe I cl (insert_into f offset len bytes r)
  insert_into-Safe f offset len bytes (error e) = nothing-Safe I cl
  insert_into-Safe f offset len bytes crashed = fault-Safe I cl
  insert_into-Safe f offset len bytes (ok size) =
      Keeps-if I (leb size offset) _ _ (pwrite_file-Safe I cl f offset bytes) (
        reading I cl (λ e. e) _
          (λ e.
            Keeps-if I (not_allowed e.system.malloc_ok (size + len)) _ _ (nothing-Safe I cl)
              (shifted_up-Safe f offset bytes _)))

  insert_found-Safe :
      (o : Option StextFile) (offset len : ℕ) (bytes : List ℕ)
      → Safe I cl (insert_found o offset len bytes)
  insert_found-Safe none offset len bytes = nothing-Safe I cl
  insert_found-Safe (some f) offset len bytes = Keeps-if I (len == 0) _ _ (nothing-Safe I cl) (
      reading I cl (λ e. size_of_backing e.system.getattr f.backing) _
        (insert_into-Safe f offset len bytes))

  pub fh_insert-Safe : Safe I cl rn_req_fh_insert
  unfolding rn_req_fh_insert
  fh_insert-Safe = on_request-Safe I cl 7 _ (λ req.
      found-Safe I cl (byte_at req 0) _
        (λ o. on_data-Safe I cl (get16 5 req) _ (insert_found-Safe o (get32 1 req) (get16 5 req))))

  called-Safe : (call : Option PathCall) → Safe I cl (modify (called call))
  called-Safe call = Keeps-modify I _ (cl.on_call call)

  resolving :
      {B : Type 0}
      → (name : List ℕ) (k : ℕ ⊎ List ℕ → M RnExchange B) → ((p : ℕ ⊎ List ℕ) → Keeps I (k p))
      → Keeps I (resolve name >>= k)
  unfolding resolve
  resolving name k h = reading I cl _ k h

  pub file_delete-Safe : Safe I cl rn_req_file_delete
  unfolding rn_req_file_delete
  file_delete-Safe =
      on_filename-Safe I cl _ (λ fname. resolving fname _ (λ p. called-Safe (delete_call p)))

  -- What takes the two names and the flags of a request.
  with_args-Safe :
      (handle : List ℕ × List ℕ × ℕ → M RnExchange (Unit {0}))
      → ((a : List ℕ × List ℕ × ℕ) → Safe I cl (handle a))
      → (o : Option (List ℕ × List ℕ × ℕ))
      → Safe I cl (elim o [ none ↦ pure tt | some a ↦ handle a ])
  with_args-Safe handle h none = nothing-Safe I cl
  with_args-Safe handle h (some a) = h a

  pub file_move-Safe : Safe I cl rn_req_file_move
  unfolding rn_req_file_move
  file_move-Safe = Keeps-bind I rn_file_copy_move_getargs _ (getargs-Keeps I cl) (
      with_args-Safe _ (λ (src, dst, flags). resolving src _ (λ p. resolving dst _ (λ q.
        reading I cl (λ e. e.system) _ (λ system. called-Safe (move_call system flags p q))))))

  copy_ended-Safe : (path : List ℕ) (o : Option CopyEnd) → Safe I cl (copy_ended path o)
  copy_ended-Safe path none = blocked-Safe I cl
  copy_ended-Safe path (some (complete content)) = called-Safe (some (write_file path content))
  copy_ended-Safe path (some broken) = called-Safe (some (unlink path))

  copy_files-Safe : (path : List ℕ) (src dst : FileioOpened) → Safe I cl (copy_files path src dst)
  copy_files-Safe path (not_opened e) dst = nothing-Safe I cl
  copy_files-Safe path (opened source size seekable) (not_opened e) = nothing-Safe I cl
  copy_files-Safe path (opened source size seekable) (opened content size' seekable') =
      transferring I cl _
        (λ rounds. copy_ended-Safe path (copy_loop (suc (length source)) rounds source content 0))

  copy_to-Safe :
      (src_fname : List ℕ) (flags : ℕ) (p : ℕ ⊎ List ℕ) → Safe I cl (copy_to src_fname flags p)
  copy_to-Safe src_fname flags (inl e) = nothing-Safe I cl
  copy_to-Safe src_fname flags (inr path) = reading I cl (λ e. e) _ (λ e. copy_files-Safe path _ _)

  pub file_copy-Safe : Safe I cl rn_req_file_copy
  unfolding rn_req_file_copy
  file_copy-Safe =
      Keeps-bind I rn_file_copy_move_getargs _ (getargs-Keeps I cl)
        (with_args-Safe _ (λ (src, dst, flags). resolving dst _ (λ p. copy_to-Safe src flags p)))

  pub file_list-Safe : Safe I cl rn_req_file_list
  unfolding rn_req_file_list
  file_list-Safe =
      Keeps-bind I (modify (with_context rn_file_list_free)) _ (Keeps-modify I _ cl.on_free) (λ u.
        Keeps-bind I rn_file_copy_move_getargs _ (getargs-Keeps I cl) (
          with_args-Safe _ (λ (dir, pattern, flags). resolving dir _ (λ p.
            reading I cl (λ e. e.system) _
              (λ system.
                Keeps-bind I (modify (with_context (listed system pattern flags p))) _
                  (Keeps-modify I _ (cl.on_listed system pattern flags p))
                  (λ v.
                    reading I cl (λ e. e.ctx.file_list_count) _
                      (λ count. cl.on_send (nabu_set_uint16 (count % 2 ^ 16)))))))))

  pub file_list_item-Safe : Safe I cl rn_req_file_list_item
  unfolding rn_req_file_list_item
  file_list_item-Safe = on_request-Safe I cl 2 _ (λ req. record {
    run =
        λ e i. (cl.on_send (item_details e.ctx.file_list _)).run _ (cl.on_chosen (get16 0 req) e i);
  })
