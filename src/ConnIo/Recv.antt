-- ===== src/ConnIo/Recv.antt =====
-- What `conn_io_recv` delivers: all of the bytes asked for, or a failure.
use nabud.Prelude.{ℕ, zero, suc, ◌+◌, ◌≡◌, refl, arith, List, [], ◌∷◌, ◌++◌, Bool, true, false}
use nabud.Prelude.{length, length-append, append_assoc, ap, ◌∙◌}
use mathlib.Core.Path.{subst}
use nabud.Prelude.Monad.{Outcome, done, blocked, fault}
use nabud.ConnIo.{ConnIo, RecvEvent, byte, read_again}
use nabud.ConnIo.{read_failed, read_eof, no_recv}
use nabud.ConnIo.{step_back, recv_loop, conn_io_recv}

abbrev pub bytes_then : List ℕ → List RecvEvent → List RecvEvent
bytes_then [] es = es
bytes_then (b ∷ bs) es = byte b ∷ bytes_then bs es

recv_loop-bytes :
    (b : ℕ) (bs got : List ℕ) (es : List RecvEvent) (c : ConnIo)
    → recv_loop (bytes_then (b ∷ bs) es) (length (b ∷ bs)) got c
      ≡ done ((true, got ++ (b ∷ bs)), record c { recvs = es })
unfolding recv_loop
recv_loop-bytes b [] got es c = refl
recv_loop-bytes b (d ∷ bs) got es c =
    recv_loop-bytes d bs (got ++ (b ∷ [])) es c
    ∙ ap (λ (l : List ℕ). done ((true, l), record c { recvs = es }))
        (append_assoc got (b ∷ []) (d ∷ bs))

-- If the peer's next bytes are `b ∷ bs`, one after the other, a call for so many bytes succeeds,
-- stores exactly those bytes in order, and changes nothing but what is left to be received.
pub recv_all :
    (b : ℕ) (bs : List ℕ) (es : List RecvEvent) (c : ConnIo)
    → c.recvs ≡ bytes_then (b ∷ bs) es
    → conn_io_recv (length (b ∷ bs)) c ≡ done ((true, b ∷ bs), record c { recvs = es })
unfolding conn_io_recv
recv_all b bs es c e =
    ap (λ (l : List RecvEvent). recv_loop l (length (b ∷ bs)) [] c) e ∙ recv_loop-bytes b bs [] es c

length-step_back : (b : ℕ) (bs : List ℕ) → length (step_back (b ∷ bs)) ≡ length bs
length-step_back b [] = refl
length-step_back b (d ∷ bs) = ap suc (length-step_back d bs)

-- A successful call stores exactly the number of bytes asked for and leaves the connection's
-- state, its watchdog and what was sent as they were.
abbrev pub RecvPost : ℕ → ConnIo → Outcome ((Bool × List ℕ) × ConnIo) → Type 0
RecvPost len c blocked = Unit
RecvPost len c fault = Unit
RecvPost len c (done ((false, got), c')) = Unit
RecvPost len c (done ((true, got), c')) =
    (length got ≡ len) × (c'.state ≡ c.state) × (c'.watchdog ≡ c.watchdog) × (c'.sent ≡ c.sent)

recv_loop-RecvPost :
    (es : List RecvEvent) (resid : ℕ) (got : List ℕ) (c : ConnIo)
    → RecvPost (length got + resid) c (recv_loop es resid got c)
unfolding recv_loop
recv_loop-RecvPost [] resid got c = tt
recv_loop-RecvPost (byte b ∷ es) zero got c = tt
recv_loop-RecvPost (byte b ∷ es) (suc zero) got c = (length-append got (b ∷ []), refl, refl, refl)
recv_loop-RecvPost (byte b ∷ es) (suc (suc resid)) got c =
    subst (λ n. RecvPost n c (recv_loop es (suc resid) (got ++ (b ∷ [])) c))
      (omega (arith, length-append got (b ∷ [])))
      (recv_loop-RecvPost es (suc resid) (got ++ (b ∷ [])) c)
recv_loop-RecvPost (read_again ∷ es) resid [] c = tt
recv_loop-RecvPost (read_again ∷ es) resid (b ∷ got) c =
    subst (λ n. RecvPost n c (recv_loop es (suc resid) (step_back (b ∷ got)) c))
      (omega (arith, length-step_back b got))
      (recv_loop-RecvPost es (suc resid) (step_back (b ∷ got)) c)
recv_loop-RecvPost (read_failed ∷ es) resid got c = tt
recv_loop-RecvPost (read_eof ∷ es) resid got c = tt
recv_loop-RecvPost (no_recv w ∷ es) resid got c = tt

-- There are no partial reads: on every script of events, a call that succeeds has stored exactly
-- the number of bytes asked for, and left the state, the watchdog and what was sent as they were.
pub recv_whole : (len : ℕ) (c : ConnIo) → RecvPost len c (conn_io_recv len c)
unfolding conn_io_recv
recv_whole len c =
    subst (λ n. RecvPost n c (recv_loop c.recvs len [] c)) (omega arith)
      (recv_loop-RecvPost c.recvs len [] c)

-- `length bs + n`, in the form in which the loop counts down.
abbrev asked : List ℕ → ℕ → ℕ
asked [] n = n
asked (b ∷ bs) n = suc (asked bs n)

asked_lem : (bs : List ℕ) (n : ℕ) → length bs + n ≡ asked bs n
asked_lem [] n = omega arith
asked_lem (b ∷ bs) n = omega (arith, asked_lem bs n)

recv_loop-front :
    (b : ℕ) (bs got : List ℕ) (n : ℕ) (es : List RecvEvent) (c : ConnIo)
    → recv_loop (bytes_then (b ∷ bs) es) (asked (b ∷ bs) (suc n)) got c
      ≡ recv_loop es (suc n) (got ++ (b ∷ bs)) c
unfolding recv_loop
recv_loop-front b [] got n es c = refl
recv_loop-front b (d ∷ bs) got n es c =
    recv_loop-front d bs (got ++ (b ∷ [])) n es c
    ∙ ap (λ l. recv_loop es (suc n) l c) (append_assoc got (b ∷ []) (d ∷ bs))

recv_loop-again :
    (b : ℕ) (bs : List ℕ) (n : ℕ) (es : List RecvEvent) (c : ConnIo)
    → recv_loop (read_again ∷ es) (suc n) (b ∷ bs) c
      ≡ recv_loop es (suc (suc n)) (step_back (b ∷ bs)) c
unfolding recv_loop
recv_loop-again b bs n es c = refl

-- If a read(2) answers EAGAIN after the bytes `b ∷ bs` have come, and `d ∷ e ∷ ds` come after it,
-- a call for as many bytes as that, less one, still succeeds: the byte before the EAGAIN is lost.
pub recv_again_loses :
    (b d e : ℕ) (bs ds : List ℕ) (es : List RecvEvent) (c : ConnIo)
    → c.recvs ≡ bytes_then (b ∷ bs) (read_again ∷ bytes_then (d ∷ e ∷ ds) es)
    → conn_io_recv (length (b ∷ bs) + length (e ∷ ds)) c
      ≡ done ((true, step_back (b ∷ bs) ++ (d ∷ e ∷ ds)), record c { recvs = es })
unfolding conn_io_recv
recv_again_loses b d e bs ds es c h =
    ap (λ (l : List RecvEvent). recv_loop l (length (b ∷ bs) + length (e ∷ ds)) [] c) h
    ∙ ap (λ n. recv_loop (bytes_then (b ∷ bs) later) n [] c) (asked_lem (b ∷ bs) (length (e ∷ ds)))
    ∙ recv_loop-front b bs [] (length ds) later c
    ∙ recv_loop-again b bs (length ds) (bytes_then (d ∷ e ∷ ds) es) c
    ∙ recv_loop-bytes d (e ∷ ds) (step_back (b ∷ bs)) es c
  where
    later : List RecvEvent
    later = read_again ∷ bytes_then (d ∷ e ∷ ds) es

-- If the first read(2) of a call answers EAGAIN, the call goes on with a pointer before its buffer.
pub recv_again_faults :
    (len : ℕ) (es : List RecvEvent) (c : ConnIo)
    → c.recvs ≡ read_again ∷ es
    → conn_io_recv len c ≡ fault
unfolding conn_io_recv recv_loop
recv_again_faults len es c h = ap (λ (l : List RecvEvent). recv_loop l len [] c) h
