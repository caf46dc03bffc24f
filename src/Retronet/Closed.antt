-- ===== src/Retronet/Closed.antt =====
-- What an invariant of an exchange has to stand, to be kept by every RetroNet request, and the steps
-- that the handlers share.
use nabud.Prelude.{ℕ, List, Bool}
use nabud.Prelude.{Option, none, some, ◌⊎◌, if◌then◌else◌, not}
use nabud.Proto.{byte_at}
use nabud.Prelude.Monad.{M, fault, blocked, pure, read, modify, ◌>>=◌}
use nabud.Prelude.Keeps.{Keeps, Keeps-bind, Keeps-if, Keeps-pure, Keeps-modify}
use nabud.Stext.{stext_file_find, StextFile, Backing}
use nabud.Stext.Files.{Round, first_rounds, later_rounds, stext_file_pwrite}
use nabud.Stext.Open.{StextContext}
use nabud.Retronet.{
  RnExchange, RnSystem, PathCall, conn_recv, conn_send, on_request, with_stext, with_transfers,
  next_transfer, with_file, file_at,
}
use nabud.Retronet.Names.{
  recv_flags, recv_second, rn_recv_filename, on_filename, rn_file_getattr,
  rn_file_copy_move_getargs,
}
use nabud.Retronet.Transfers.{pwrite_file, on_data}
use nabud.Retronet.Moves.{called}
use nabud.Retronet.Lists.{with_context, rn_file_list_free, listed, lookup_item}

pub record Closed (I : RnExchange → Type 0) : Type 0 where
  pub on_recv : (n : ℕ) → Keeps I (conn_recv n)
  pub on_send : (buf : List ℕ) → Keeps I (conn_send buf)
  pub on_stext : (t : StextContext) (e : RnExchange) → I e → I (with_stext t e)
  pub on_transfers : (ts : List (List Round)) (e : RnExchange) → I e → I (with_transfers ts e)
  pub on_call : (call : Option PathCall) (e : RnExchange) → I e → I (called call e)
  pub on_free : (e : RnExchange) → I e → I (with_context rn_file_list_free e)
  pub on_listed :
      (system : RnSystem) (pattern : List ℕ) (flags : ℕ) (path : ℕ ⊎ List ℕ) (e : RnExchange)
      → I e
      → I (with_context (listed system pattern flags path) e)
  pub on_chosen :
      (idx : ℕ) (e : RnExchange)
      → I e
      → I (
          with_context
            (λ ctx. record ctx {
              cached_entry = lookup_item idx e.ctx.cached_entry e.ctx.file_list;
            })
            e)

module _ (I : RnExchange → Type 0) (cl : Closed I) where
  abbrev pub Safe : M RnExchange (Unit {0}) → Type 0
  Safe m = Keeps I m

  pub nothing-Safe : Safe (pure tt)
  nothing-Safe = Keeps-pure I tt

  pub fault-Safe : Safe (λ s. fault)
  fault-Safe = record { run = λ s i. tt }

  pub blocked-Safe : Safe (λ s. blocked)
  blocked-Safe = record { run = λ s i. tt }

  pub reading :
      {A B : Type 0}
      → (g : RnExchange → A) (f : A → M RnExchange B) → ((a : A) → Keeps I (f a))
      → Keeps I (read g >>= f)
  reading g f h = record { run = λ s i. (h (g s)).run s i }

  pub if_received-Safe :
      (r : Bool × List ℕ) (handle : List ℕ → M RnExchange (Unit {0}))
      → ((req : List ℕ) → Safe (handle req))
      → Safe (if r.0 then handle r.1 else pure tt)
  if_received-Safe (received, req) handle h = Keeps-if I received _ _ (h req) nothing-Safe

  pub on_request-Safe :
      (size : ℕ) (handle : List ℕ → M RnExchange (Unit {0}))
      → ((req : List ℕ) → Safe (handle req))
      → Safe (on_request size handle)
  on_request-Safe size handle h =
      Keeps-bind I (conn_recv size) _ (cl.on_recv size) (λ r. if_received-Safe r handle h)

  pub found-Safe :
      (slot : ℕ) (k : Option StextFile → M RnExchange (Unit {0}))
      → ((o : Option StextFile) → Safe (k o))
      → Safe (file_at slot >>= k)
  found-Safe slot k h = record { run = λ e i. (h (stext_file_find slot e.ctx.stext.files)).run e i }

  pub recv_filename-Keeps : Keeps I rn_recv_filename
  unfolding rn_recv_filename
  recv_filename-Keeps = Keeps-bind I (conn_recv 1) _ (cl.on_recv 1) (λ r.
      Keeps-if I (not r.0) _ _ (Keeps-pure I none) (
        Keeps-bind I (conn_recv (byte_at r.1 0)) _ (cl.on_recv (byte_at r.1 0))
          (λ s. Keeps-if I s.0 _ _ (Keeps-pure I _) (Keeps-pure I none))))

  pub on_filename-Safe :
      (handle : List ℕ → M RnExchange (Unit {0}))
      → ((name : List ℕ) → Safe (handle name))
      → Safe (on_filename handle)
  on_filename-Safe handle h = Keeps-bind I rn_recv_filename _ recv_filename-Keeps (λ o. named o)
    where
      named : (o : Option (List ℕ)) → Safe (elim o [ none ↦ pure tt | some n ↦ handle n ])
      named none = nothing-Safe
      named (some n) = h n

  pub file_getattr-Keeps : Keeps I rn_file_getattr
  unfolding rn_file_getattr
  file_getattr-Keeps =
      Keeps-bind I rn_recv_filename _ recv_filename-Keeps
        (λ o. reading (λ e. e.system) _ (λ system. Keeps-pure I _))

  flags-Keeps : (s : List ℕ) (o : Option (List ℕ)) → Keeps I (recv_flags s o)
  flags-Keeps s none = Keeps-pure I none
  flags-Keeps s (some d) = Keeps-bind I (conn_recv 1) _ (cl.on_recv 1) (λ r. Keeps-pure I _)

  second_name-Keeps : (o : Option (List ℕ)) → Keeps I (recv_second o)
  second_name-Keeps none = Keeps-pure I none
  second_name-Keeps (some s) =
      Keeps-bind I rn_recv_filename _ recv_filename-Keeps (λ o. flags-Keeps s o)

  pub getargs-Keeps : Keeps I rn_file_copy_move_getargs
  unfolding rn_file_copy_move_getargs
  getargs-Keeps = Keeps-bind I rn_recv_filename _ recv_filename-Keeps (λ o. second_name-Keeps o)

  -- What takes the rounds of a transfer from the script.
  pub transferring :
      {A : Type 0}
      → (f : List Round → M RnExchange A) → ((rounds : List Round) → Keeps I (f rounds))
      → Keeps I (next_transfer >>= f)
  transferring f h = record {
    run = λ e i.
        (h (first_rounds e.system.transfers)).run _
          (cl.on_transfers (later_rounds e.system.transfers) e i);
  }

  pub file-Safe : (slot : ℕ) (b : Backing) → Safe (modify (with_file slot b))
  file-Safe slot b = Keeps-modify I (with_file slot b) (λ e i. cl.on_stext _ e i)

  pub pwrite_file-Safe :
      (f : StextFile) (offset : ℕ) (bytes : List ℕ) → Safe (pwrite_file f offset bytes)
  pwrite_file-Safe f offset bytes =
      transferring _
        (λ rounds. file-Safe f.slot (stext_file_pwrite rounds f.backing offset bytes).1)

  pub on_data-Safe :
      (length : ℕ) (handle : List ℕ → M RnExchange (Unit {0}))
      → ((bytes : List ℕ) → Safe (handle bytes))
      → Safe (on_data length handle)
  on_data-Safe length handle h = on_request-Safe length handle h
