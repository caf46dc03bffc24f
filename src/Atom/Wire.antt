-- ===== src/Atom/Wire.antt =====
-- An atom that is sent is received as it was.
use nabud.Prelude.{
  ℕ, ◌^◌, ◌<◌, ◌≡◌, refl, sym, arith, ap, ◌∙◌, List, [], ◌∷◌, ◌++◌, Bool, true, false, ◌==◌,
  if◌then◌else◌, length, drop, append_assoc, append-nil, some,
}
use nabud.Prelude.Monad.{pure, done, bind-done}
use nabud.Proto.{nabu_get_uint32_be, nabu_set_uint32_be}
use nabud.Proto.RoundTrip.{get-set}
use nabud.ConnIo.{ConnIo, RecvEvent, SendEvent, byte, conn_io_recv, conn_io_send}
use nabud.ConnIo.Recv.{bytes_then, recv_all}
use nabud.ConnIo.Send.{Accepts, send_all}
use nabud.Atom.{Atom, atom_hdr, atom_send, atom_recv, recv_data, length_ok, nul_ok, nabuctl_type}

-- The bytes of an atom on the wire.
abbrev pub wire : Atom → List ℕ
wire atom = atom_hdr atom.tag (length atom.content) ++ atom.content

-- An atom that the receiver lets through.
abbrev pub IsSound : Atom → Type 0
IsSound atom =
    (atom.tag < 2 ^ 32)
    × (length_ok (nabuctl_type atom.tag) (length atom.content) ≡ true)
    × (nul_ok (nabuctl_type atom.tag) atom.content ≡ true)

hdr_tag : (tag len : ℕ) → tag < 2 ^ 32 → nabu_get_uint32_be (atom_hdr tag len) ≡ tag
unfolding atom_hdr nabu_get_uint32_be nabu_set_uint32_be
hdr_tag tag len h = omega (arith, (get-set tag).5)

hdr_length : (tag len : ℕ) → len < 2 ^ 32 → nabu_get_uint32_be (drop 4 (atom_hdr tag len)) ≡ len
unfolding atom_hdr nabu_get_uint32_be nabu_set_uint32_be
hdr_length tag len h = omega (arith, (get-set len).5)

send_hdr :
    (tag len : ℕ) (c : ConnIo)
    → Accepts c.sends
    → (es : List SendEvent) × (conn_io_send (atom_hdr tag len) c
        ≡ done (tt, record c { sends = es; sent = c.sent ++ atom_hdr tag len }))
      × Accepts es
unfolding atom_hdr nabu_set_uint32_be
send_hdr tag len c h = send_all _ _ c h

send-wire :
    (tag : ℕ) (content : List ℕ) (c : ConnIo)
    → Accepts c.sends
    → let atom : Atom = record { tag = tag; content = content } in
      (es : List SendEvent) × (atom_send atom c
        ≡ done (tt, record c { sends = es; sent = c.sent ++ wire atom }))
      × Accepts es
unfolding atom_send
send-wire tag [] c h =
    let (es, e, h') = send_hdr tag 0 c h in
    (
      es,
      bind-done (conn_io_send (atom_hdr tag 0)) _ c _ _ e
          ∙ ap (λ l. done (tt, record c { sends = es; sent = c.sent ++ l }))
              (sym (append-nil (atom_hdr tag 0))),
      h',
    )
send-wire tag (b ∷ bytes) c h =
    let hdr : List ℕ = atom_hdr tag (length (b ∷ bytes)) in
    let (es, e, h') = send_hdr tag (length (b ∷ bytes)) c h in
    let (fs, f, k) = send_all b bytes (record c { sends = es; sent = c.sent ++ hdr }) h' in
    (
      fs,
      bind-done (conn_io_send hdr) _ c _ _ e
          ∙ f
          ∙ ap (λ l. done (tt, record c { sends = fs; sent = l }))
              (append_assoc c.sent hdr (b ∷ bytes)),
      k,
    )

-- An atom, sent over writes that do not fail, is its header and its data in order.
atom_send-wire :
    (atom : Atom) (c : ConnIo)
    → Accepts c.sends
    → (es : List SendEvent) × (atom_send atom c
        ≡ done (tt, record c { sends = es; sent = c.sent ++ wire atom }))
      × Accepts es
atom_send-wire atom c h = send-wire atom.tag atom.content c h

bytes_then-append :
    (xs ys : List ℕ) (es : List RecvEvent)
    → bytes_then (xs ++ ys) es ≡ bytes_then xs (bytes_then ys es)
bytes_then-append [] ys es = refl
bytes_then-append (x ∷ xs) ys es = ap (λ l. byte x ∷ l) (bytes_then-append xs ys es)

recv_hdr :
    (tag len : ℕ) (es : List RecvEvent) (c : ConnIo)
    → c.recvs ≡ bytes_then (atom_hdr tag len) es
    → conn_io_recv 8 c ≡ done ((true, atom_hdr tag len), record c { recvs = es })
unfolding atom_hdr nabu_set_uint32_be
recv_hdr tag len es c e = recv_all _ _ es c e

after_hdr :
    (tag : ℕ) (content : List ℕ) (es : List RecvEvent) (c : ConnIo)
    → nul_ok (nabuctl_type tag) content ≡ true
    → c.recvs ≡ bytes_then content es
    → (if length content == 0
          then pure (some (record { tag = tag; content = [] }))
          else recv_data tag (length content))
        c
      ≡ done (some (record { tag = tag; content = content }), record c { recvs = es })
unfolding recv_data
after_hdr tag [] es c ends next =
    ap (λ l. done (some (record { tag = tag; content = [] }), record c { recvs = l })) next
after_hdr tag (b ∷ bytes) es c ends next =
    let some_data : (length (b ∷ bytes) == 0) ≡ false = ground arith in
    rw some_data (
      bind-done (conn_io_recv (length (b ∷ bytes))) _ c _ _ (recv_all b bytes es c next)
      ∙ rw ends refl)

-- If the bytes of a sound atom of less than 2 ^ 32 bytes come next, one after the other, and there
-- is memory for it, exactly that atom is received, and what follows it is left.
pub atom_recv-wire :
    (atom : Atom) (es : List RecvEvent) (alloc_ok : ℕ → Bool) (c : ConnIo)
    → IsSound atom
    → length atom.content < 2 ^ 32
    → alloc_ok (length atom.content) ≡ true
    → c.recvs ≡ bytes_then (wire atom) es
    → atom_recv alloc_ok c ≡ done (some atom, record c { recvs = es })
unfolding atom_recv
atom_recv-wire atom es alloc_ok c (word, sized, ends) small memory next =
    let n : ℕ = length atom.content in
    let behind : List RecvEvent = bytes_then atom.content es in
    let parts = next ∙ bytes_then-append (atom_hdr atom.tag n) atom.content es in
    bind-done (conn_io_recv 8) _ c _ _ (recv_hdr atom.tag n behind c parts)
    ∙ rw (hdr_tag atom.tag n word, hdr_length atom.tag n small, sized, memory)
        (after_hdr atom.tag atom.content es (record c { recvs = behind }) ends refl)
