-- ===== src/Nhacp/Crash.antt =====
-- What follows a HELLO for a session number that the server has not given out.
use nabud.Prelude.{ℕ, ◌+◌, ◌≡◌, refl, sym, ap, ◌∙◌, arith, List, true, false, ◌==◌, leb}
use nabud.Prelude.{none, some, ◌%◌, ◌^◌}
use nabud.Prelude.Monad.{M, Outcome, done, fault, blocked, pure, assert, ◌>>◌, bind-done}
use mathlib.Core.Path.{subst}
use nabud.Prelude.Prompt.{Prompt, Returned, Prompt-assert, Prompt-zoom}
use nabud.Prelude.Prompt.{Returned-bind, Returned-fault}
use nabud.ConnIo.{conn_io_send}
use nabud.ConnIo.Prompt.{send-Prompt}
use nabud.Nhacp.{NhacpContext, NhacpSession, Exchange, with_buffer, fetch}
use nabud.Nhacp.Reply.{
  nhacp_send_reply, nhacp_send_error, nhacp_send_error_details, exchange_io, nhacp_crc_len,
  finish_reply,
}
use nabud.Nhacp.{nhacp_max_messagelen, nhacp_session_system, nhacp_session_create}
use nabud.Nhacp.Sessions.{
  NhacpConn, context_at, removed, with_session, with_context, finish_exchange,
}
use nabud.Nhacp.Contexts.{
  deref-done, deref-bind, with_context-run, with_context-done, free-done, with_new,
}
use nabud.Nhacp.Contexts.{context_at-with_session, removed-with_session}
use nabud.Nhacp.Requests.{
  free_if_unlinked, hello_is_valid, nhacp_req_hello, hello_version, hello_options,
  nhacp_process_request, take_version,
}
use nabud.Nhacp.Requests.{
  well_formed, needs_session, nhacp_request_check, nhacp_req_hello_type, nhacp_req_goodbye,
}
use nabud.Nhacp.Serve.{request_out, serve_request}
use nabud.Nhacp.Texts.{nhacp_einval}

send_bytes-Prompt : (bytes : List ℕ) → Prompt (exchange_io (conn_io_send bytes))
send_bytes-Prompt bytes = Prompt-zoom _ _ (conn_io_send bytes) (send-Prompt bytes)

send_reply-Prompt : (type length : ℕ) → Prompt (nhacp_send_reply type length)
unfolding nhacp_send_reply
send_reply-Prompt type length0 = record {
  run = λ e.
      let crclen : ℕ = nhacp_crc_len e.session.nhacp_options in
      let length : ℕ = (length0 + crclen) % 2 ^ 16 in
      let framed : Exchange = with_buffer (finish_reply crclen type length) e in
      Returned-bind _ (λ a t. Unit) (assert (leb length nhacp_max_messagelen) e) _
        ((Prompt-assert (leb length nhacp_max_messagelen)).run e)
        (λ u t h.
          (send_bytes-Prompt (
              fetch 0 (length + 2)
                (with_buffer (finish_reply crclen type length) t).session.buffer)).run
            (with_buffer (finish_reply crclen type length) t));
}

pub send_error-Prompt : (code : ℕ) → Prompt (nhacp_send_error code)
unfolding nhacp_send_error nhacp_send_error_details
send_error-Prompt code = record { run = λ e. (send_reply-Prompt 0x82 _).run _ }

-- The context has been freed, and no other stands at its address.
abbrev Gone : ℕ → NhacpConn → Type 0
Gone p c = context_at p c.contexts ≡ none

-- `request_out` reads the context, which is a fault when it is gone.
request_out-fault : (p : ℕ) (c : NhacpConn) → Gone p c → request_out p c ≡ fault
unfolding request_out
request_out-fault p c gone =
    ap
      (λ (o : Outcome (NhacpContext × NhacpConn)). elim o [
        | done (ctx, t) ↦ (free_if_unlinked p ctx >> pure true) t
        | blocked ↦ blocked
        | fault ↦ fault
      ])
      (deref-done p c none gone)

-- A hello that is in order, for a context that is neither linked nor a new or the system session.
pub record HelloForUnknown (p : ℕ) (ctx : NhacpContext) (c : NhacpConn) : Type 0 where
  pub allocated : context_at p c.contexts ≡ some ctx
  pub alone : context_at p (removed p c.contexts) ≡ none
  pub unlinked : ctx.linked ≡ false
  pub not_system : (ctx.session_id == nhacp_session_system) ≡ false
  pub not_create : (ctx.session_id == nhacp_session_create) ≡ false
  pub valid : hello_is_valid ctx.session ≡ true

finish-Returned :
    {A : Type 0} (p : ℕ) (c : NhacpConn) (o : Outcome (A × Exchange))
    → Returned (λ a e. Unit {0}) o
    → Returned
        (λ a d. (s : NhacpSession) × (d.contexts ≡ with_session p s c.contexts))
        (finish_exchange p c o)
finish-Returned p c (done (a, e)) h = (e.session, refl)
finish-Returned p c blocked h = absurd h
finish-Returned p c fault h = tt

freed-Gone :
    (p : ℕ) (ctx k : NhacpContext) (c : NhacpConn) (s : NhacpSession) (d : NhacpConn)
    → context_at p c.contexts ≡ some k
    → context_at p (removed p c.contexts) ≡ none
    → ctx.linked ≡ false
    → d.contexts ≡ with_session p s c.contexts
    → Returned (λ a t. Gone p t) (free_if_unlinked p ctx d)
freed-Gone p ctx k c s d found alone unlinked e =
    let there : context_at p d.contexts ≡ some (record k { session = s }) =
      ap (context_at p) e ∙ context_at-with_session p s c.contexts ∙ ap (with_new p s) found in
    let away : context_at p (removed p d.contexts) ≡ none =
      ap (λ l. context_at p (removed p l)) e
      ∙ ap (context_at p) (removed-with_session p s c.contexts)
      ∙ alone in
    rw (unlinked, free-done p d _ there) away

take_version-session : NhacpSession → NhacpSession
take_version-session s = record s {
  nhacp_version = hello_version s;
  nhacp_options = hello_options s;
}

after_version : NhacpConn → ℕ → NhacpContext → NhacpConn
after_version c p ctx = record c {
  contexts = with_session p (take_version-session ctx.session) c.contexts;
}

hello-refused :
    (adapter_id : List ℕ) (p : ℕ) (ctx : NhacpContext) (c : NhacpConn)
    → HelloForUnknown p ctx c
    → nhacp_req_hello adapter_id p c
      ≡ (with_context p (nhacp_send_error nhacp_einval) >> free_if_unlinked p ctx)
          (after_version c p ctx)
unfolding nhacp_req_hello after_version take_version-session take_version
hello-refused adapter_id p ctx c h =
    deref-bind p c ctx _ h.allocated
    ∙ rw (h.valid, h.not_system, h.not_create)
        (bind-done (with_context p take_version) _ c tt _
          (with_context-done p take_version c ctx tt _ h.allocated refl))

refused-Gone :
    (p : ℕ) (ctx : NhacpContext) (c : NhacpConn) (h : HelloForUnknown p ctx c)
    → Returned
        (λ a t. Gone p t)
        ((with_context p (nhacp_send_error nhacp_einval) >> free_if_unlinked p ctx)
          (after_version c p ctx))
unfolding after_version take_version-session
refused-Gone p ctx c h =
    let s : NhacpSession = take_version-session ctx.session in
    let d : NhacpConn = after_version c p ctx in
    let there : context_at p d.contexts ≡ some (record ctx { session = s }) =
      context_at-with_session p s c.contexts ∙ ap (with_new p s) h.allocated in
    let alone : context_at p (removed p d.contexts) ≡ none =
      ap (context_at p) (removed-with_session p s c.contexts) ∙ h.alone in
    let sent =
      nhacp_send_error nhacp_einval (record { session = s; io = d.io; system = d.system }) in
    let run =
      with_context-run p (nhacp_send_error nhacp_einval) d (record ctx { session = s }) there in
    let P : Unit {0} → NhacpConn → Type 0 =
      λ a e. (k : NhacpSession) × (e.contexts ≡ with_session p k d.contexts) in
    Returned-bind P (λ a t. Gone p t) (with_context p (nhacp_send_error nhacp_einval) d)
      (λ _. free_if_unlinked p ctx)
      (subst (Returned P) (sym run)
        (finish-Returned p d sent ((send_error-Prompt nhacp_einval).run _)))
      (λ a e (k, same). freed-Gone p ctx _ d k e there alone h.unlinked same)

module _ (adapter_id : List ℕ) where
  hello-Gone :
      (p : ℕ) (ctx : NhacpContext) (c : NhacpConn)
      → HelloForUnknown p ctx c
      → Returned (λ a t. Gone p t) (nhacp_req_hello adapter_id p c)
  hello-Gone p ctx c h =
      subst (Returned (λ a t. Gone p t)) (sym (hello-refused adapter_id p ctx c h))
        (refused-Gone p ctx c h)

  module _ (other_request : ℕ → M Exchange (Unit {0})) where
    -- The check lets the message pass, and the state is as before.
    checked_hello :
        (p reqlen : ℕ) (ctx : NhacpContext) (c : NhacpConn)
        → HelloForUnknown p ctx c
        → (ctx.session.buffer 2 == nhacp_req_hello_type) ≡ true
        → well_formed ctx.session_id ctx.session reqlen ≡ true
        → leb reqlen nhacp_max_messagelen ≡ true
        → nhacp_request_check p reqlen c ≡ done (true, c)
    unfolding nhacp_request_check needs_session
    checked_hello p reqlen ctx c h is_hello ok short =
        deref-bind p c ctx _ h.allocated ∙ rw (short, ok, is_hello) refl

    process-Gone :
        (p : ℕ) (ctx : NhacpContext) (c : NhacpConn)
        → HelloForUnknown p ctx c
        → (ctx.session.buffer 2 == nhacp_req_hello_type) ≡ true
        → Returned (λ a t. Gone p t) (nhacp_process_request adapter_id other_request p c)
    unfolding nhacp_process_request
    process-Gone p ctx c h is_hello =
        subst (Returned (λ a t. Gone p t))
          (sym (deref-bind p c ctx _ h.allocated ∙ rw is_hello refl)) (hello-Gone p ctx c h)

    -- A HELLO that is well formed and passes the check, on a context that is not linked and whose
    -- number is neither that of the system session nor that of a new one, is a fault: the handler
    -- frees the context, and the context is read again at the end of the request.
    pub unknown_session-fault :
        (p reqlen : ℕ) (ctx : NhacpContext) (c : NhacpConn)
        → HelloForUnknown p ctx c
        → (ctx.session.buffer 2 == nhacp_req_hello_type) ≡ true
        → well_formed ctx.session_id ctx.session reqlen ≡ true
        → leb reqlen nhacp_max_messagelen ≡ true
        → serve_request adapter_id other_request p reqlen c ≡ fault
    unfolding serve_request
    unknown_session-fault p reqlen ctx c h is_hello ok short =
        let not_goodbye : (ctx.session.buffer 2 == nhacp_req_goodbye) ≡ false = ground arith in
        bind-done (nhacp_request_check p reqlen) _ c true c
          (checked_hello p reqlen ctx c h is_hello ok short)
        ∙ deref-bind p c ctx _ h.allocated
        ∙ rw not_goodbye (
            Returned-fault _ (
              Returned-bind (λ a t. Gone p t) (λ a t. ⊥)
                (nhacp_process_request adapter_id other_request p c) (λ _. request_out p)
                (process-Gone p ctx c h is_hello)
                (λ a t gone. subst (Returned (λ b s. ⊥)) (sym (request_out-fault p t gone)) tt)))
