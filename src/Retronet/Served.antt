-- ===== src/Retronet/Served.antt =====
-- `retronet_request` keeps what is closed under the steps of the handlers.
use nabud.Prelude.{ℕ, suc, ◌+◌, ◌-◌, ◌%◌, List, [], ◌∷◌, Bool, true, false, leb, ltb}
use nabud.Prelude.{Option, none, some, get_elem?, not, ◌&&◌, length, zero, ◌≡◌, refl}
use nabud.Prelude.Monad.{M, fault, blocked}
use nabud.Prelude.Keeps.{Keeps, Kept, Keeps-if, Keeps-pure, Kept-bind}
use nabud.Retronet.{RnExchange, RetronetContext}
use nabud.Retronet.Closed.{Closed, Safe}
use nabud.Retronet.Serve.{
  RetronetConn, new_context, exchange_of, after_exchange, Handler, retronet_request_types,
  with_retronet, handled, retronet_request, nabu_msg_rn_first, nabu_msg_rn_last,
}
use nabud.Retronet.Preserved.{
  file_open-Safe, fh_size-Safe, file_size-Safe, fh_close-Safe, fh_read-Safe, fh_append-Safe,
  fh_replace-Safe, fh_truncate-Safe,
}
use nabud.Prelude.Monad.{Outcome, done, zoom}
use nabud.Retronet.Kept.{
  fh_insert-Safe, fh_delete_range-Safe, file_delete-Safe, file_move-Safe, file_copy-Safe,
  file_list-Safe, file_list_item-Safe,
}

module _ (I : RnExchange → Type 0) (cl : Closed I)
    (other_request : ℕ → M RnExchange (Unit {0})) where
  abbrev AllSafe : List (Option Handler) → Type 0
  AllSafe [] = Unit
  AllSafe (none ∷ hs) = AllSafe hs
  AllSafe (some h ∷ hs) = Safe I cl h × AllSafe hs

  abbrev SomeSafe : Option (Option Handler) → Type 0
  SomeSafe none = Unit
  SomeSafe (some none) = Unit
  SomeSafe (some (some h)) = Safe I cl h

  handler-Safe : (hs : List (Option Handler)) (i : ℕ) → AllSafe hs → SomeSafe (get_elem? hs i)
  handler-Safe [] i h = tt
  handler-Safe (none ∷ hs) zero h = tt
  handler-Safe (some m ∷ hs) zero (h, t) = h
  handler-Safe (none ∷ hs) (suc i) h = handler-Safe hs i h
  handler-Safe (some m ∷ hs) (suc i) (h, t) = handler-Safe hs i t

  table-AllSafe :
      ((msg : ℕ) → Safe I cl (other_request msg)) → AllSafe (retronet_request_types other_request)
  table-AllSafe other = (
    file_open-Safe I cl,
    (
      fh_size-Safe I cl,
      (
        fh_read-Safe I cl,
        (
          fh_close-Safe I cl,
          (
            file_size-Safe I cl,
            (
              fh_append-Safe I cl,
              (
                fh_insert-Safe I cl,
                (
                  fh_delete_range-Safe I cl,
                  (
                    fh_replace-Safe I cl,
                    (
                      file_delete-Safe I cl,
                      (
                        file_copy-Safe I cl,
                        (
                          file_move-Safe I cl,
                          (
                            fh_truncate-Safe I cl,
                            (
                              file_list-Safe I cl,
                              (
                                file_list_item-Safe I cl,
                                (other 0xb3, (other 0xb4, (other 0xb5, (other 0xb6, tt)))),
                              ),
                            ),
                          ),
                        ),
                      ),
                    ),
                  ),
                ),
              ),
            ),
          ),
        ),
      ),
    ),
  )

  -- How an invariant of the connection is one of the exchanges on it.
  module _ (J : RetronetConn → Type 0)
      (enter : (ctx : RetronetContext) (c : RetronetConn)
        → c.retronet ≡ some ctx
        → J c
        → I (exchange_of ctx c))
      (start : (c : RetronetConn) → J c → I (exchange_of new_context c))
      (leave : (c : RetronetConn) (e : RnExchange) → I e → J (after_exchange c e)) where
    left_with :
        (c : RetronetConn) (o : Outcome (Unit {0} × RnExchange))
        → Kept I o
        → Kept J (elim o as (λ x. Outcome (Unit {0} × RetronetConn)) [
          | done (a, e) ↦ done (a, after_exchange c e)
          | blocked ↦ blocked
          | fault ↦ fault
        ])
    left_with c (done (a, e)) h = leave c e h
    left_with c blocked h = tt
    left_with c fault h = tt

    with_retronet-Keeps :
        (calloc_ok : Bool) (h : Handler) (o : Option RetronetContext)
        → Safe I cl h
        → (c : RetronetConn) → c.retronet ≡ o
        → J c
        → Kept J (with_retronet other_request calloc_ok h o c)
    with_retronet-Keeps calloc_ok h (some ctx) k c e j =
        Kept-bind J (zoom (exchange_of ctx) after_exchange h c) _
          (left_with c (h (exchange_of ctx c)) (k.run _ (enter ctx c e j))) (λ u. Keeps-pure J true)
    with_retronet-Keeps true h none k c e j =
        Kept-bind J (zoom (exchange_of new_context) after_exchange h c) _
          (left_with c (h (exchange_of new_context c)) (k.run _ (start c j)))
          (λ u. Keeps-pure J true)
    with_retronet-Keeps false h none k c e j = j

    handled-Keeps : (o : Option (Option Handler)) → SomeSafe o → Keeps J (handled other_request o)
    handled-Keeps none h = record { run = λ c j. tt }
    handled-Keeps (some none) h = record { run = λ c j. j }
    handled-Keeps (some (some m)) h = record {
      run = λ c j. with_retronet-Keeps c.system.malloc_ok m c.retronet h c refl j;
    }

    pub request-Keeps :
        ((msg : ℕ) → Safe I cl (other_request msg))
        → (msg : ℕ) → Keeps J (retronet_request other_request msg)
    unfolding retronet_request
    request-Keeps other msg = record {
      run = λ c j.
          let idx = (msg + 256 - nabu_msg_rn_first) % 256 in
          (Keeps-if J (not (leb nabu_msg_rn_first msg && leb msg nabu_msg_rn_last)) _ _
              (Keeps-pure J false)
              (Keeps-if J (not c.retronet_enabled) _ _ (Keeps-pure J false) (
                Keeps-if J (ltb (length (retronet_request_types other_request)) idx) _ _
                  (Keeps-pure J false)
                  (handled-Keeps (get_elem? (retronet_request_types other_request) idx) (
                    handler-Safe (retronet_request_types other_request) idx
                      (table-AllSafe other)))))).run
            c j;
    }
