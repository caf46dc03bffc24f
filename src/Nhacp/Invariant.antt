-- ===== src/Nhacp/Invariant.antt =====
-- The session numbers of a connection through the operations on its contexts and every request.
use nabud.Prelude.{List, ℕ, ◌<◌, ◌≤◌, ◌||◌, ◌≡◌, arith, Bool, true, ◌==◌}
use nabud.Prelude.{if-cases, Option, none, some, not}
use nabud.Prelude.Monad.{M, Outcome, done, blocked, fault}
use nabud.Prelude.Keeps.{Keeps, Kept, Keeps-bind, Keeps-modify, Keeps-zoom, Kept-assert}
use nabud.ConnIo.{ConnIo}
use nabud.Nhacp.{NhacpContext, NhacpSession, Exchange, nhacp_session_create, nhacp_session_system}
use nabud.ConnIo.{conn_io_recv, conn_io_recv_byte, conn_io_start_watchdog, conn_io_stop_watchdog}
use nabud.Nhacp.Serve.{nhacp_request}
use nabud.Nhacp.Closed.{Closed}
use nabud.Nhacp.Preserved.{request-Keeps}
use nabud.Nhacp.Sessions.{NhacpConn, context_at, with_context, deref, conn_io, nhacp_context_free}
use nabud.Nhacp.Sessions.{
  nhacp_context_alloc, nhacp_context_init, nhacp_conn_reset, finish_exchange,
}
use nabud.Nhacp.Sessions.{
  nhacp_context_lookup, free_session_id, is_none, link_context, init_context, dereferenced,
}
use nabud.Nhacp.Sound.{
  Sound, Unused, with_session-Sound, removed-Sound, removed-Unused, reset-Sound,
}
use nabud.Nhacp.Sound.{free_session_id-Lowest, is_none-Unused}
use nabud.Nhacp.{store, with_buffer}

-- The linked contexts have different numbers below NHACP_SESSION_CREATE.
abbrev pub SoundConn : NhacpConn → Type 0
SoundConn c = Sound c.contexts

finished :
    {A : Type 0} (p : ℕ) (c : NhacpConn) (o : Outcome (A × Exchange))
    → SoundConn c
    → Kept SoundConn (finish_exchange p c o)
finished p c (done (a, e)) h = with_session-Sound p e.session c.contexts h
finished p c blocked h = tt
finished p c fault h = tt

pub with_context-Keeps :
    {A : Type 0} (p : ℕ) (m : M Exchange A) → Keeps SoundConn (with_context p m)
unfolding with_context
with_context-Keeps p m = record {
  run = λ c h.
      elim (context_at p c.contexts)
        as (λ o. Kept SoundConn (nabud.Nhacp.Sessions.exchange_on p m c o)) [
          | none ↦ tt
          | some ctx ↦
              finished p c (m (record { session = ctx.session; io = c.io; system = c.system })) h
        ];
}

pub deref-Keeps : (p : ℕ) → Keeps SoundConn (deref p)
unfolding deref
deref-Keeps p = record {
  run = λ c h. elim (context_at p c.contexts) as (λ o. Kept SoundConn (dereferenced o c)) [
    | none ↦ tt
    | some ctx ↦ h
  ];
}

pub conn_io-Keeps : {A : Type 0} (m : M ConnIo A) → Keeps SoundConn (conn_io m)
conn_io-Keeps m = Keeps-zoom SoundConn _ _ m (λ c t h. h)

pub free-Keeps : (p : ℕ) → Keeps SoundConn (nhacp_context_free p)
unfolding nhacp_context_free
free-Keeps p = record {
  run = λ c h.
      elim (context_at p c.contexts) as (λ o. Kept SoundConn (nabud.Nhacp.Sessions.freed p o c)) [
        | none ↦ tt
        | some ctx ↦ removed-Sound p c.contexts h
      ];
}

pub alloc-Keeps :
    (version session_id : ℕ) → Keeps SoundConn (nhacp_context_alloc version session_id)
unfolding nhacp_context_alloc
alloc-Keeps version session_id = record { run = λ c h. ((λ e. absurd cc), h) }

pub reset-Keeps : (octx : Option ℕ) → Keeps SoundConn (nhacp_conn_reset octx)
unfolding nhacp_conn_reset
reset-Keeps octx = Keeps-modify SoundConn _ (λ c h. reset-Sound octx c.contexts h)

link-Sound :
    (ctx : NhacpContext) (i : ℕ) (c : NhacpConn)
    → i < nhacp_session_create
    → Unused i c.contexts
    → SoundConn c
    → SoundConn (link_context ctx i c)
link-Sound ctx i c h u s =
    ((λ e. (h, removed-Unused i ctx.address c.contexts u)), removed-Sound ctx.address c.contexts s)

init_context-Kept :
    (ctx : NhacpContext) (c : NhacpConn) → SoundConn c → Kept SoundConn (init_context ctx c)
init_context-Kept ctx c h =
    let found : ℕ = free_session_id 254 1 c.contexts in
    let lowest = free_session_id-Lowest 254 1 c.contexts in
    let keep : (i : ℕ)
        → i < nhacp_session_create
        → Unused i c.contexts
        → SoundConn (link_context ctx i c) =
      λ i k u. link-Sound ctx i c k u h in
    let is_system : Bool = ctx.session_id == nhacp_session_system in
    let is_create : Bool = ctx.session_id == nhacp_session_create in
    let no_other : Bool = is_none (nhacp_context_lookup nhacp_session_system c.contexts) in
    Kept-assert SoundConn (not ctx.linked) _ c (λ unlinked.
      Kept-assert SoundConn (is_system || is_create) _ c (λ system_or_create.
        Kept-assert SoundConn (not is_system || no_other) _ c (λ no_system.
          if-cases {A = M NhacpConn Bool} (λ m. Kept SoundConn (m c)) (not is_create) _ _
            (λ e.
              let system : ctx.session_id ≡ 0 = ground arith in
              let alone : no_other ≡ true = ground arith in
              keep ctx.session_id (omega arith) (rw system (is_none-Unused _ alone)))
            (λ e.
              if-cases {A = M NhacpConn Bool} (λ m. Kept SoundConn (m c))
                (found == nhacp_session_create) _ _ (λ full. h)
                (λ free.
                  let at_most : found ≤ 255 = lowest.inside.1 in
                  let inside : found < 255 = ground arith in
                  keep found inside (lowest.free inside))))))

pub init-Keeps : (p : ℕ) → Keeps SoundConn (nhacp_context_init p)
unfolding nhacp_context_init
init-Keeps p =
    Keeps-bind SoundConn (deref p) init_context (deref-Keeps p)
      (λ ctx. record { run = init_context-Kept ctx })

-- Nothing that happens to one session touches the numbers.
numbers-Closed :
    (adapter_id : List ℕ) (other_request : ℕ → M Exchange (Unit {0}))
    → Closed adapter_id other_request SoundConn
numbers-Closed adapter_id other_request = record {
  Mild = λ m. Unit;
  on_context = λ p m h. with_context-Keeps p m;
  on_deref = deref-Keeps;
  on_recv = λ n. conn_io-Keeps (conn_io_recv n);
  on_recv_byte = conn_io-Keeps conn_io_recv_byte;
  on_start = λ timo. conn_io-Keeps (conn_io_start_watchdog timo);
  on_stop = conn_io-Keeps conn_io_stop_watchdog;
  on_free = free-Keeps;
  on_alloc = alloc-Keeps;
  on_init = init-Keeps;
  on_reset = reset-Keeps;
  mild_buffer = λ f. tt;
  mild_error = λ code. tt;
  mild_version = tt;
  mild_session_started = λ session_id. tt;
  mild_started_0_0 = tt;
  mild_request = λ type. tt;
}

-- If the linked sessions of a connection have different numbers below NHACP_SESSION_CREATE, then they
-- do in every state that `nhacp_request` returns with, whatever message and bytes arrive.
pub nhacp_request-SoundConn :
    (adapter_id : List ℕ) (other_request : ℕ → M Exchange (Unit {0})) (fuel msg : ℕ) (c : NhacpConn)
    → SoundConn c
    → Kept SoundConn (nhacp_request adapter_id other_request fuel msg c)
nhacp_request-SoundConn adapter_id other_request fuel msg =
    (request-Keeps adapter_id other_request SoundConn (numbers-Closed adapter_id other_request) fuel
      msg).run
