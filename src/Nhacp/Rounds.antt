-- ===== src/Nhacp/Rounds.antt =====
-- No operation of NHACP adds rounds of reception to those to come.
use nabud.Prelude.{ℕ, ◌≤◌, arith, List, Bool, true, false, ◌==◌}
use nabud.Prelude.{Option, none, some, not, ◌||◌}
use nabud.Prelude.Monad.{M, Outcome, done, blocked, fault, modify, pure, ◌>>◌}
use nabud.Prelude.Keeps.{Keeps, Kept, Keeps-bind, Keeps-if, Keeps-pure, Kept-assert}
use nabud.Prelude.Measure.{Within, Quiet}
use nabud.ConnIo.{
  ConnIo, conn_io_recv, conn_io_recv_byte, conn_io_start_watchdog, conn_io_stop_watchdog,
}
use nabud.ConnIo.Rounds.{rounds_left, recv-Quiet}
use nabud.Nhacp.{Exchange, NhacpContext}
use nabud.Nhacp.Sessions.{
  NhacpConn, context_at, with_context, deref, conn_io, nhacp_context_free, exchange_on,
}
use nabud.Nhacp.Sessions.{
  nhacp_context_alloc, nhacp_context_init, nhacp_conn_reset, finish_exchange,
}
use nabud.Nhacp.Sessions.{init_context, dereferenced, freed, link_context, free_session_id}
use nabud.Nhacp.Quiet.{AtMost, NoReception, send_error-NoReception, send_reply-NoReception}
use nabud.Nhacp.Handlers.{file_request-NoReception}
use nabud.Nhacp.Requests.{take_version, send_session_started}
use nabud.Nhacp.Serve.{send_started_0_0}
use nabud.Nhacp.Sessions.{is_none, nhacp_context_lookup}
use nabud.Nhacp.{nhacp_session_system, nhacp_session_create}
use nabud.Nhacp.Closed.{Closed}

-- How many rounds of reception are to come to a connection, and a bound on it.
abbrev pub left : NhacpConn → ℕ
left c = rounds_left c.io

abbrev pub Bounded : ℕ → NhacpConn → Type 0
Bounded n c = left c ≤ n

finished :
    {A : Type 0} (n p : ℕ) (c : NhacpConn) (o : Outcome (A × Exchange))
    → Kept (AtMost n) o
    → Kept (Bounded n) (finish_exchange p c o)
finished n p c (done (a, e)) h = h
finished n p c blocked h = tt
finished n p c fault h = tt

with_context-Bounded :
    (n p : ℕ) (m : M Exchange (Unit {0})) → NoReception m → Keeps (Bounded n) (with_context p m)
unfolding with_context
with_context-Bounded n p m q = record {
  run = λ c h. elim (context_at p c.contexts) as (λ o. Kept (Bounded n) (exchange_on p m c o)) [
    | none ↦ tt
    | some ctx ↦
        let e : Exchange = record { session = ctx.session; io = c.io; system = c.system } in
        finished n p c (m e) ((q n).run e h)
  ];
}

deref-Bounded : (n p : ℕ) → Keeps (Bounded n) (deref p)
unfolding deref
deref-Bounded n p = record {
  run = λ c h. elim (context_at p c.contexts) as (λ o. Kept (Bounded n) (dereferenced o c)) [
    | none ↦ tt
    | some ctx ↦ h
  ];
}

zoomed :
    {A : Type 0} (n k : ℕ) (c : NhacpConn) (o : Outcome (A × ConnIo))
    → k ≤ n
    → Within rounds_left k o
    → Kept
        (Bounded n)
        (elim o [ done (a, t) ↦ done (a, record c { io = t }) | blocked ↦ blocked | fault ↦ fault ])
zoomed n k c (done (a, t)) h w = omega arith
zoomed n k c blocked h w = tt
zoomed n k c fault h w = tt

conn_io-Bounded :
    {A : Type 0} (n : ℕ) (m : M ConnIo A) → Quiet rounds_left m → Keeps (Bounded n) (conn_io m)
conn_io-Bounded n m q = record { run = λ c h. zoomed n (left c) c (m c.io) h (q.run c.io) }

free-Bounded : (n p : ℕ) → Keeps (Bounded n) (nhacp_context_free p)
unfolding nhacp_context_free
free-Bounded n p = record {
  run = λ c h. elim (context_at p c.contexts) as (λ o. Kept (Bounded n) (freed p o c)) [
    | none ↦ tt
    | some ctx ↦ h
  ];
}

linked-Bounded :
    (n i : ℕ) (ctx : NhacpContext) → Keeps (Bounded n) (modify (link_context ctx i) >> pure true)
linked-Bounded n i ctx = record { run = λ c h. h }

init_context-Bounded : (n : ℕ) (ctx : NhacpContext) → Keeps (Bounded n) (init_context ctx)
init_context-Bounded n ctx = record {
  run = λ c h.
      let found : ℕ = free_session_id 254 1 c.contexts in
      let is_system : Bool = ctx.session_id == nhacp_session_system in
      let is_create : Bool = ctx.session_id == nhacp_session_create in
      let no_other : Bool = is_none (nhacp_context_lookup nhacp_session_system c.contexts) in
      Kept-assert (Bounded n) (not ctx.linked) _ c (λ a.
        Kept-assert (Bounded n) (is_system || is_create) _ c (λ b.
          Kept-assert (Bounded n) (not is_system || no_other) _ c (λ d.
            (Keeps-if (Bounded n) (not is_create) _ _ (linked-Bounded n ctx.session_id ctx) (
                Keeps-if (Bounded n) (found == nhacp_session_create) _ _
                  (Keeps-pure (Bounded n) false) (linked-Bounded n found ctx))).run
              c h)));
}

init-Bounded : (n p : ℕ) → Keeps (Bounded n) (nhacp_context_init p)
unfolding nhacp_context_init
init-Bounded n p =
    Keeps-bind (Bounded n) (deref p) init_context (deref-Bounded n p) (init_context-Bounded n)

alloc-Bounded :
    (n version session_id : ℕ) → Keeps (Bounded n) (nhacp_context_alloc version session_id)
unfolding nhacp_context_alloc
alloc-Bounded n version session_id = record { run = λ c h. h }

reset-Bounded : (n : ℕ) (octx : Option ℕ) → Keeps (Bounded n) (nhacp_conn_reset octx)
unfolding nhacp_conn_reset
reset-Bounded n octx = record { run = λ c h. h }

start-Bounded : (n timo : ℕ) → Keeps (Bounded n) (conn_io (conn_io_start_watchdog timo))
unfolding conn_io_start_watchdog
start-Bounded n timo = record { run = λ c h. h }

stop-Bounded : (n : ℕ) → Keeps (Bounded n) (conn_io conn_io_stop_watchdog)
unfolding conn_io_stop_watchdog
stop-Bounded n = record { run = λ c h. h }

recv_byte-Bounded : (n : ℕ) → Keeps (Bounded n) (conn_io conn_io_recv_byte)
unfolding conn_io_recv_byte
recv_byte-Bounded n = conn_io-Bounded n (conn_io_recv 1) (recv-Quiet 1)

version-NoReception : NoReception take_version
unfolding take_version
version-NoReception n = record { run = λ e h. h }

session_started-NoReception :
    (adapter_id : List ℕ) (session_id : ℕ)
    → NoReception (send_session_started adapter_id session_id)
unfolding send_session_started
session_started-NoReception adapter_id session_id n = record {
  run = λ e h. (send_reply-NoReception 0x80 _ n).run _ h;
}

started_0_0-NoReception : (adapter_id : List ℕ) → NoReception (send_started_0_0 adapter_id)
unfolding send_started_0_0
started_0_0-NoReception adapter_id n = record {
  run = λ e h. (send_reply-NoReception 0x80 _ n).run _ h;
}

module _ (adapter_id : List ℕ) (other_request : ℕ → M Exchange (Unit {0}))
    (quiet : (type : ℕ) → NoReception (other_request type)) where
  -- No operation on contexts adds rounds of reception, so no request does.
  pub bound-Closed : (n : ℕ) → Closed adapter_id other_request (Bounded n)
  bound-Closed n = record {
    Mild = NoReception;
    on_context = with_context-Bounded n;
    on_deref = deref-Bounded n;
    on_recv = λ m. conn_io-Bounded n (conn_io_recv m) (recv-Quiet m);
    on_recv_byte = recv_byte-Bounded n;
    on_start = start-Bounded n;
    on_stop = stop-Bounded n;
    on_free = free-Bounded n;
    on_alloc = alloc-Bounded n;
    on_init = init-Bounded n;
    on_reset = reset-Bounded n;
    mild_buffer = λ f m. record { run = λ e h. h };
    mild_error = send_error-NoReception;
    mild_version = version-NoReception;
    mild_session_started = session_started-NoReception adapter_id;
    mild_started_0_0 = started_0_0-NoReception adapter_id;
    mild_request = file_request-NoReception adapter_id other_request quiet;
  }
