-- ===== src/ConnIo/Send.antt =====
-- What `conn_io_send` hands to the peer.
use nabud.Prelude.{ℕ, zero, suc, ◌≡◌, refl, List, [], ◌∷◌, ◌++◌, take, drop, take-append-drop}
use nabud.Prelude.{append_assoc, append-nil, ap, ◌∙◌, sym, ◌⊎◌, inl, inr}
use nabud.Prelude.Monad.{Outcome, done}
use nabud.ConnIo.{ConnIo, eof, SendEvent, wrote, rev_onto, if_none_left}
use nabud.ConnIo.{send_loop, conn_io_send, conn_io_set_state}

-- Every write(2) to come accepts at least one byte.
abbrev pub Accepts : List SendEvent → Type 0
Accepts [] = Unit
Accepts (wrote (suc n) ∷ es) = Accepts es
Accepts _ = ⊥

-- The rounds that are left after a buffer has been sent.
SendPost : ConnIo → List ℕ → Outcome (Unit {0} × ConnIo) → Type 0
SendPost c buf r =
    (es : List SendEvent) × (r ≡ done (tt, record c { sends = es; sent = c.sent ++ buf }))
    × Accepts es

List-cases : (l : List ℕ) → (l ≡ []) ⊎ ((x : ℕ) × (xs : List ℕ) × (l ≡ x ∷ xs))
List-cases [] = inl refl
List-cases (x ∷ xs) = inr (x, xs, refl)

send_loop-wrote :
    (n : ℕ) (es : List SendEvent) (before : List ℕ) (b : ℕ) (rest : List ℕ) (c : ConnIo)
    → let c' : ConnIo = record c { sends = es; sent = c.sent ++ (b ∷ take n rest) } in
      send_loop (wrote (suc n) ∷ es) before (b ∷ rest) c
      ≡ if_none_left
          (drop n rest)
          (done (tt, c'))
          (send_loop es (rev_onto (b ∷ take n rest) before) (drop n rest) c')
unfolding send_loop
send_loop-wrote n es before b rest c = refl

-- The bytes of one write and those that it leaves.
split_write :
    (sent rest left : List ℕ) (b n : ℕ)
    → drop n rest ≡ left
    → (sent ++ (b ∷ take n rest)) ++ left ≡ sent ++ (b ∷ rest)
split_write sent rest left b n e =
    append_assoc sent (b ∷ take n rest) left
    ∙ ap (λ l. sent ++ (b ∷ l)) (ap (λ l. take n rest ++ l) (sym e) ∙ take-append-drop n rest)

-- Either the write took all, or the loop goes on with what is left.
wrote-SendPost :
    (n : ℕ) (es : List SendEvent) (b : ℕ) (rest left : List ℕ) (c : ConnIo)
    (more : List ℕ → Outcome (Unit {0} × ConnIo))
    → drop n rest ≡ left
    → Accepts es
    → ((x : ℕ) (xs : List ℕ)
        → SendPost
            (record c { sends = es; sent = c.sent ++ (b ∷ take n rest) })
            (x ∷ xs)
            (more (x ∷ xs)))
    → SendPost c (b ∷ rest) (
        if_none_left left
          (done (tt, record c { sends = es; sent = c.sent ++ (b ∷ take n rest) }))
          (more left))
unfolding SendPost
wrote-SendPost n es b rest [] c more e h ih = (
  es,
  ap (λ l. done (tt, record c { sends = es; sent = l }))
      (sym (append-nil _) ∙ split_write c.sent rest [] b n e),
  h,
)
wrote-SendPost n es b rest (x ∷ xs) c more e h ih =
    let (es', r, h') = ih x xs in
    (
      es',
      r
          ∙ ap (λ l. done (tt, record c { sends = es'; sent = l }))
              (split_write c.sent rest (x ∷ xs) b n e),
      h',
    )

send_loop-whole :
    (es : List SendEvent) (before : List ℕ) (b : ℕ) (rest : List ℕ) (c : ConnIo)
    → Accepts es
    → SendPost c (b ∷ rest) (send_loop es before (b ∷ rest) c)
send_loop-whole [] before b rest c h = unfold send_loop SendPost in ([], refl, tt)
send_loop-whole (wrote zero ∷ es) before b rest c h = absurd h
send_loop-whole (wrote (suc n) ∷ es) before b rest c h = rw (send_loop-wrote n es before b rest c) (
    wrote-SendPost n es b rest (drop n rest) c
      (λ l.
        send_loop es (rev_onto (b ∷ take n rest) before) l
          (record c { sends = es; sent = c.sent ++ (b ∷ take n rest) }))
      refl h
      (λ x xs.
        send_loop-whole es (rev_onto (b ∷ take n rest) before) x xs
          (record c { sends = es; sent = c.sent ++ (b ∷ take n rest) }) h))
send_loop-whole (_ ∷ es) before b rest c h = absurd h

-- However the writes are split, so long as none fails, sending a buffer that is not empty hands the
-- peer exactly its bytes in order, and changes nothing else but the rounds to come.
pub send_all :
    (b : ℕ) (buf : List ℕ) (c : ConnIo)
    → Accepts c.sends
    → (es : List SendEvent) × (conn_io_send (b ∷ buf) c
        ≡ done (tt, record c { sends = es; sent = c.sent ++ (b ∷ buf) }))
      × Accepts es
unfolding conn_io_send SendPost
send_all b buf c h = send_loop-whole c.sends [] b buf c h

send_loop-nothing :
    (es : List SendEvent) (c : ConnIo)
    → Accepts es
    → (c' : ConnIo) × (send_loop es [] [] c ≡ done (tt, c')) × (c'.state ≡ eof) × (c'.sent ≡ c.sent)
unfolding send_loop conn_io_set_state
send_loop-nothing [] c h = (record c { state = eof; sends = [] }, refl, refl, refl)
send_loop-nothing (wrote zero ∷ es) c h = absurd h
send_loop-nothing (wrote (suc n) ∷ es) c h =
    (record c { state = eof; sends = es }, refl, refl, refl)
send_loop-nothing (_ ∷ es) c h = absurd h

-- Sending an empty buffer is not a no-op, even where no write fails: the peer is given nothing and
-- the connection is taken to be at the end of the file.
send_nothing :
    (c : ConnIo)
    → Accepts c.sends
    → (c' : ConnIo) × (conn_io_send [] c ≡ done (tt, c')) × (c'.state ≡ eof) × (c'.sent ≡ c.sent)
unfolding conn_io_send
send_nothing c h = send_loop-nothing c.sends c h
