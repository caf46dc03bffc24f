-- ===== src/Retronet/Service.antt =====
-- What every RetroNet request preserves: the numbering of the list of files, and the bound on the
-- rounds of reception to come.
use nabud.Prelude.{ℕ, ◌≤◌, arith, Option, none, some}
use nabud.Prelude.Monad.{M, Outcome, done, blocked, fault, zoom}
use nabud.Prelude.Keeps.{Keeps, Kept, Keeps-zoom}
use nabud.Prelude.Measure.{Within, Quiet}
use nabud.ConnIo.{ConnIo, conn_io_recv, conn_io_send}
use nabud.ConnIo.Rounds.{rounds_left, recv-Quiet, send-Quiet}
use nabud.Retronet.{RnExchange, RetronetContext, PathCall, with_io}
use mathlib.Core.Path.{subst}
use nabud.Retronet.Moves.{called}
use nabud.Retronet.Items.{IsNumbered, free-IsNumbered, listed-IsNumbered, chosen-IsNumbered}
use nabud.Retronet.Closed.{Closed}
use nabud.Retronet.Serve.{RetronetConn, retronet_request, new_context}
use nabud.Retronet.Served.{request-Keeps}

abbrev pub ListNumbered : RnExchange → Type 0
ListNumbered e = IsNumbered e.ctx

ListNumbered-Closed : Closed ListNumbered
ListNumbered-Closed = record {
  on_recv = λ n. Keeps-zoom ListNumbered (λ e. e.io) with_io (conn_io_recv n) (λ e io h. h);
  on_send = λ buf. Keeps-zoom ListNumbered (λ e. e.io) with_io (conn_io_send buf) (λ e io h. h);
  on_stext = λ t e h. record { numbered = h.numbered; counted = h.counted; cached = h.cached };
  on_transfers = λ ts e h. h;
  on_call = on_call;
  on_free = λ e h. free-IsNumbered e.ctx;
  on_listed = λ system pattern flags path e h. listed-IsNumbered system pattern flags path e.ctx h;
  on_chosen = λ idx e h. chosen-IsNumbered idx e.ctx h;
}
  where
    on_call :
        (call : Option PathCall) (e : RnExchange) → ListNumbered e → ListNumbered (called call e)
    on_call none e h = h
    on_call (some call) e h = h

abbrev NumberedIfAny : Option RetronetContext → Type 0
NumberedIfAny none = Unit
NumberedIfAny (some ctx) = IsNumbered ctx

-- The context of a connection, where it has one, has a numbered list.
abbrev pub ContextNumbered : RetronetConn → Type 0
ContextNumbered c = NumberedIfAny c.retronet

-- If the handlers that are not modelled keep the list of files numbered from 0, counted, and the
-- cached entry in it, then every request of RetroNet does, whatever message it is of.
pub request-ContextNumbered :
    (other_request : ℕ → M RnExchange (Unit {0}))
    → ((msg : ℕ) → Keeps ListNumbered (other_request msg))
    → (msg : ℕ) → Keeps ContextNumbered (retronet_request other_request msg)
request-ContextNumbered other_request other =
    request-Keeps ListNumbered ListNumbered-Closed other_request ContextNumbered
      (λ ctx c e h. subst NumberedIfAny e h) (λ c h. free-IsNumbered new_context) (λ c e h. h) other

-- At most `n` rounds of reception are to come.
abbrev pub AtMost : ℕ → RnExchange → Type 0
AtMost n e = rounds_left e.io ≤ n

abbrev pub Bounded : ℕ → RetronetConn → Type 0
Bounded n c = rounds_left c.io ≤ n

zoomed_at :
    {A : Type 0} (n k : ℕ) (e : RnExchange) (o : Outcome (A × ConnIo))
    → k ≤ n
    → Within rounds_left k o
    → Kept
        (AtMost n)
        (elim o [ done (a, t) ↦ done (a, with_io e t) | blocked ↦ blocked | fault ↦ fault ])
zoomed_at n k e (done (a, t)) h w = omega arith
zoomed_at n k e blocked h w = tt
zoomed_at n k e fault h w = tt

io-AtMost :
    {A : Type 0} (n : ℕ) (m : M ConnIo A)
    → Quiet rounds_left m
    → Keeps (AtMost n) (zoom (λ e. e.io) with_io m)
io-AtMost n m q = record { run = λ e h. zoomed_at n (rounds_left e.io) e (m e.io) h (q.run e.io) }

AtMost-Closed : (n : ℕ) → Closed (AtMost n)
AtMost-Closed n = record {
  on_recv = λ m. io-AtMost n (conn_io_recv m) (recv-Quiet m);
  on_send = λ buf. io-AtMost n (conn_io_send buf) (send-Quiet buf);
  on_stext = λ t e h. h;
  on_transfers = λ ts e h. h;
  on_call = on_call;
  on_free = λ e h. h;
  on_listed = λ system pattern flags path e h. h;
  on_chosen = λ idx e h. h;
}
  where
    on_call : (call : Option PathCall) (e : RnExchange) → AtMost n e → AtMost n (called call e)
    on_call none e h = h
    on_call (some call) e h = h

pub request-Bounded :
    (other_retronet : ℕ → M RnExchange (Unit {0}))
    → (n : ℕ) → ((msg : ℕ) → Keeps (AtMost n) (other_retronet msg))
    → (msg : ℕ) → Keeps (Bounded n) (retronet_request other_retronet msg)
request-Bounded other_retronet n other =
    request-Keeps (AtMost n) (AtMost-Closed n) other_retronet (Bounded n) (λ ctx c e h. h)
      (λ c h. h) (λ c e h. h) other
