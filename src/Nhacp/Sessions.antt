-- ===== src/Nhacp/Sessions.antt =====
-- nabud/nhacp.c: the contexts of a connection. All that are allocated stand in one list, those that
-- are linked in the order of `nhacp_sessions`. A use of a context that has been freed is a fault.
use nabud.Prelude.{
  ℕ, zero, suc, ◌+◌, ◌-◌, ◌*◌, ◌/◌, ◌%◌, List, [], ◌∷◌, Bool, true, false, ltb, ◌==◌,
}
use nabud.Prelude.{if◌then◌else◌, Option, none, some, ◌&&◌, ◌||◌, not}
use nabud.Prelude.Monad.{M, Outcome, done, blocked, fault, pure, modify, assert, zoom, ◌>>=◌, ◌>>◌}
use nabud.ConnIo.{ConnIo}
use nabud.Stext.{StextFile}
use nabud.Stext.Open.{StextContext, handle_count}
use nabud.Nhacp.{NhacpContext, NhacpSession, Exchange, System, nhacp_mtu, nhacp_session_system}
use nabud.Nhacp.{nhacp_session_create}

-- `struct nabu_connection`, as far as NHACP needs it. `next_address` is what the next allocation
-- returns; allocations are taken to succeed.
pub record NhacpConn : Type 0 where
  pub io : ConnIo
  pub baud : ℕ
  pub stop_bits : ℕ
  pub contexts : List NhacpContext
  pub next_address : ℕ
  pub system : System

-- The context at a pointer, if it is still allocated.
abbrev pub context_at : ℕ → List NhacpContext → Option NhacpContext
context_at p [] = none
context_at p (ctx ∷ rest) =
    let further = context_at p rest in if ctx.address == p then some ctx else further

abbrev pub removed : ℕ → List NhacpContext → List NhacpContext
removed p [] = []
removed p (ctx ∷ rest) =
    let further = removed p rest in if ctx.address == p then rest else ctx ∷ further

-- The context at `p` with another session state; its identity stays.
abbrev pub with_session : ℕ → NhacpSession → List NhacpContext → List NhacpContext
with_session p s [] = []
with_session p s (ctx ∷ rest) =
    let further = with_session p s rest in
    if ctx.address == p then record ctx { session = s } ∷ rest else ctx ∷ further

-- A read through a pointer.
abbrev pub dereferenced : Option NhacpContext → M NhacpConn NhacpContext
dereferenced none c = fault
dereferenced (some ctx) c = done (ctx, c)

unfoldable pub deref : ℕ → M NhacpConn NhacpContext
deref p c = dereferenced (context_at p c.contexts) c

abbrev pub exchanged : {A : Type 0} → ℕ → NhacpConn → A × Exchange → A × NhacpConn
exchanged p c (a, e) =
    (a, record c { io = e.io; contexts = with_session p e.session c.contexts; system = e.system })

abbrev pub finish_exchange :
    {A : Type 0} → ℕ → NhacpConn → Outcome (A × Exchange) → Outcome (A × NhacpConn)
finish_exchange p c (done r) = done (exchanged p c r)
finish_exchange p c blocked = blocked
finish_exchange p c fault = fault

abbrev pub exchange_on :
    {A : Type 0} → ℕ → M Exchange A → NhacpConn → Option NhacpContext → Outcome (A × NhacpConn)
exchange_on p m c none = fault
exchange_on p m c (some ctx) =
    finish_exchange p c (m (record { session = ctx.session; io = c.io; system = c.system }))

-- An operation on the session of the context at `p`.
unfoldable pub with_context : {A : Type 0} → ℕ → M Exchange A → M NhacpConn A
with_context p m c = exchange_on p m c (context_at p c.contexts)

abbrev pub conn_io : {A : Type 0} → M ConnIo A → M NhacpConn A
conn_io = zoom (λ c. c.io) (λ c io. record c { io = io })

abbrev pub closed_handles : List StextFile → ℕ → ℕ
closed_handles [] handles = handles
closed_handles (f ∷ files) handles = closed_handles files (handles - handle_count f.backing)

-- The loop closes the first file until there is none.
unfoldable pub stext_context_fini : StextContext → StextContext
stext_context_fini ctx = record { files = []; handles = closed_handles ctx.files ctx.handles }

abbrev pub freed : ℕ → Option NhacpContext → M NhacpConn (Unit {0})
freed p none c = fault
freed p (some ctx) c = done (tt, record c { contexts = removed p c.contexts })

-- The context's files go with it.
unfoldable pub nhacp_context_free : ℕ → M NhacpConn (Unit {0})
nhacp_context_free p c = freed p (context_at p c.contexts) c

-- The seconds that a message of maximal length takes.
unfoldable pub mtu_timeout : ℕ → ℕ → ℕ
mtu_timeout baud stop_bits =
    let mtu_bits = nhacp_mtu * (9 + stop_bits) in
    let bps = if baud == 0 then 115200 else baud in
    let mtu_seconds = mtu_bits / bps + (if mtu_bits % bps == 0 then 0 else 1) in
    if ltb mtu_seconds 1 then 1 else mtu_seconds

abbrev pub new_context : ℕ → ℕ → ℕ → ℕ → NhacpContext
new_context address timo version session_id = record {
  address = address;
  linked = false;
  session_id = session_id;
  timo = timo;
  session = record {
    stext = record { files = []; handles = 0 };
    privates = λ slot. record { is_directory = false; is_writable = false };
    nhacp_version = version;
    nhacp_options = 0;
    buffer = λ i. 0;
  };
}

unfoldable pub nhacp_context_alloc : ℕ → ℕ → M NhacpConn ℕ
unfolding mtu_timeout
nhacp_context_alloc version session_id c =
    let p = c.next_address in
    let ctx = new_context p (mtu_timeout c.baud c.stop_bits) version session_id in
    done (p, record c { contexts = ctx ∷ c.contexts; next_address = suc p })

unfoldable pub nhacp_context_lookup : ℕ → List NhacpContext → Option NhacpContext
nhacp_context_lookup session_id [] = none
nhacp_context_lookup session_id (ctx ∷ rest) =
    let further = nhacp_context_lookup session_id rest in
    if ctx.linked && ctx.session_id == session_id then some ctx else further

abbrev pub is_none : Option NhacpContext → Bool
is_none none = true
is_none (some ctx) = false

-- The loop over session numbers, with `fuel` of them before NHACP_SESSION_CREATE.
unfoldable pub free_session_id : ℕ → ℕ → List NhacpContext → ℕ
unfolding nhacp_context_lookup
free_session_id zero session_id contexts = session_id
free_session_id (suc fuel) session_id contexts =
    let further = free_session_id fuel (session_id + 1) contexts in
    if is_none (nhacp_context_lookup session_id contexts) then session_id else further

-- LIST_INSERT_HEAD, with the session number and `linked` set.
abbrev pub link_context : NhacpContext → ℕ → NhacpConn → NhacpConn
link_context ctx session_id c = record c {
  contexts = record ctx { linked = true; session_id = session_id } ∷ removed ctx.address c.contexts;
}

-- `nhacp_context_init` behind the pointer.
abbrev pub init_context : NhacpContext → M NhacpConn Bool
init_context ctx c =
    let is_system = ctx.session_id == nhacp_session_system in
    let is_create = ctx.session_id == nhacp_session_create in
    let found = free_session_id 254 (nhacp_session_system + 1) c.contexts in
    (do
      assert (not ctx.linked)
      assert (is_system || is_create)
      assert (not is_system || is_none (nhacp_context_lookup nhacp_session_system c.contexts))
      if not is_create
          then (do modify (link_context ctx ctx.session_id); pure true)
          else if found == nhacp_session_create
          then pure false
          else (do modify (link_context ctx found); pure true))
      c

unfoldable pub nhacp_context_init : ℕ → M NhacpConn Bool
unfolding deref free_session_id nhacp_context_lookup
nhacp_context_init p = deref p >>= init_context

abbrev pub fini_session : NhacpSession → NhacpSession
fini_session s = record s { stext = stext_context_fini s.stext }

-- The loop of `nhacp_conn_reset` over the linked contexts; `octx` is one whose files are closed and
-- which stays.
unfoldable pub reset_loop : Option ℕ → List NhacpContext → List NhacpContext
unfolding stext_context_fini
reset_loop octx [] = []
reset_loop none (ctx ∷ rest) =
    let further = reset_loop none rest in if ctx.linked then further else ctx ∷ further
reset_loop (some p) (ctx ∷ rest) =
    let further = reset_loop (some p) rest in
    if not ctx.linked
    then ctx ∷ further
    else if ctx.address == p
    then record ctx { session = fini_session ctx.session } ∷ further
    else further

unfoldable pub nhacp_conn_reset : Option ℕ → M NhacpConn (Unit {0})
unfolding reset_loop
nhacp_conn_reset octx = modify (λ c. record c { contexts = reset_loop octx c.contexts })

unfoldable pub nhacp_conn_fini : M NhacpConn (Unit {0})
unfolding nhacp_conn_reset
nhacp_conn_fini = nhacp_conn_reset none
