-- ===== src/Nhacp/Contexts.antt =====
-- What the operations on a context give where it is allocated, and after it has been freed.
use nabud.Prelude.{ℕ, ◌≡◌, refl, ap, ◌∙◌, List, [], ◌∷◌, ◌==◌, Bool-cases}
use nabud.Prelude.{Option, none, some, inl, inr}
use nabud.Prelude.Monad.{M, done, bind-done, ◌>>=◌}
use nabud.Nhacp.{NhacpContext, NhacpSession, Exchange}
use nabud.Nhacp.Sessions.{
  NhacpConn, context_at, with_session, removed, deref, dereferenced, with_context,
}
use nabud.Nhacp.Sessions.{exchange_on, finish_exchange, exchanged, nhacp_context_free, freed}

module _ (p : ℕ) where
  pub deref-done :
      (c : NhacpConn) (o : Option NhacpContext)
      → context_at p c.contexts ≡ o
      → deref p c ≡ dereferenced o c
  unfolding deref
  deref-done c o h = ap (λ k. dereferenced k c) h

  pub deref-bind :
      {B : Type 0} (c : NhacpConn) (ctx : NhacpContext) (f : NhacpContext → M NhacpConn B)
      → context_at p c.contexts ≡ some ctx
      → (deref p >>= f) c ≡ f ctx c
  deref-bind c ctx f h = bind-done (deref p) f c ctx c (deref-done c (some ctx) h)

  pub with_context-run :
      {A : Type 0} (m : M Exchange A) (c : NhacpConn) (ctx : NhacpContext)
      → context_at p c.contexts ≡ some ctx
      → with_context p m c
        ≡ finish_exchange p c (m (record { session = ctx.session; io = c.io; system = c.system }))
  unfolding with_context
  with_context-run m c ctx h = ap (exchange_on p m c) h

  pub with_context-done :
      {A : Type 0} (m : M Exchange A) (c : NhacpConn) (ctx : NhacpContext) (a : A) (e : Exchange)
      → context_at p c.contexts ≡ some ctx
      → m (record { session = ctx.session; io = c.io; system = c.system }) ≡ done (a, e)
      → with_context p m c ≡ done (exchanged p c (a, e))
  with_context-done m c ctx a e h k = with_context-run m c ctx h ∙ ap (finish_exchange p c) k

  pub free-done :
      (c : NhacpConn) (o : Option NhacpContext)
      → context_at p c.contexts ≡ o
      → nhacp_context_free p c ≡ freed p o c
  unfolding nhacp_context_free
  free-done c o h = ap (λ k. freed p k c) h

  abbrev pub with_new : NhacpSession → Option NhacpContext → Option NhacpContext
  with_new s none = none
  with_new s (some ctx) = some (record ctx { session = s })

  pub context_at-with_session :
      (s : NhacpSession) (cs : List NhacpContext)
      → context_at p (with_session p s cs) ≡ with_new s (context_at p cs)
  context_at-with_session s [] = refl
  context_at-with_session s (c ∷ cs) = elim (Bool-cases (c.address == p)) [
    | inl here ↦ rw (here, here) refl
    | inr there ↦ rw (there, there) (context_at-with_session s cs)
  ]

  -- A change of a session leaves the others, and the addresses.
  pub removed-with_session :
      (s : NhacpSession) (cs : List NhacpContext) → removed p (with_session p s cs) ≡ removed p cs
  removed-with_session s [] = refl
  removed-with_session s (c ∷ cs) = elim (Bool-cases (c.address == p)) [
    | inl here ↦ rw (here, here) refl
    | inr there ↦ rw (there, there) (ap (λ l. c ∷ l) (removed-with_session s cs))
  ]
