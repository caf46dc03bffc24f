-- ===== src/Adaptor/Escape.antt =====
-- The framing of a packet: the NABU can tell where it ends, and gets its bytes back.
use nabud.Prelude.{ℕ, ◌*◌, ◌≤◌, ◌≡◌, refl, arith, List, [], ◌∷◌, ◌++◌, ◌==◌, if◌then◌else◌}
use nabud.Prelude.{Option, none, some, length}
use nabud.Adaptor.{escape, nabu_msg_escape, nabu_msg_finished}

abbrev put_front : ℕ → Option (List ℕ × List ℕ) → Option (List ℕ × List ℕ)
put_front b none = none
put_front b (some (buf, rest)) = some (b ∷ buf, rest)

-- How a receiver reads the stream: an escape byte before an escape byte stands for one, an escape
-- byte before 0xe1 ends the packet, and before anything else it is an error. The result is the
-- packet and what follows it.
unfoldable mutual
  pub unescape : List ℕ → Option (List ℕ × List ℕ)
  unescape [] = none
  unescape (b ∷ s) =
      let plain = put_front b (unescape s) in
      let escaped = unescape_after s in if b == nabu_msg_escape then escaped else plain

  pub unescape_after : List ℕ → Option (List ℕ × List ℕ)
  unescape_after [] = none
  unescape_after (b ∷ s) =
      let more = put_front nabu_msg_escape (unescape s) in
      if b == nabu_msg_escape then more else if b == 0xe1 then some ([], s) else none

-- A receiver of the escaped packet and the finishing sequence gets exactly the packet, and the
-- stream is left at what follows, whatever the bytes of the packet are.
pub unescape-escape :
    (buf rest : List ℕ) → unescape (escape buf ++ (nabu_msg_finished ++ rest)) ≡ some (buf, rest)
unfolding unescape unescape_after escape
unescape-escape [] rest = refl
unescape-escape (b ∷ buf) rest = ground (arith, unescape-escape buf rest)

-- Escaping at most doubles a packet: 1024 bytes fit `pktbuf`.
pub length-escape :
    (buf : List ℕ) → (length buf ≤ length (escape buf)) × (length (escape buf) ≤ 2 * length buf)
unfolding escape
length-escape [] = omega arith
length-escape (b ∷ buf) = ground (arith, length-escape buf)
