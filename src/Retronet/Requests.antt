-- ===== src/Retronet/Requests.antt =====
-- What FH-DELETE-RANGE, FH-INSERT and FH-REPLACE do to an open file, from the bytes of the request on.
use nabud.Prelude.{ℕ, ◌^◌, ◌<◌, ◌≡◌, refl, sym, ap, ap₂, ◌∙◌, arith}
use nabud.Prelude.{List, ◌∷◌, ◌++◌, true, none, some, length}
use nabud.Prelude.Monad.{M, Outcome, done, zoom-done, bind-done}
use mathlib.Core.Path.{subst}
use nabud.Proto.{nabu_set_uint16, nabu_set_uint32, nabu_get_uint16, nabu_get_uint32}
use nabud.Proto.RoundTrip.{get-set}
use nabud.ConnIo.{RecvEvent, conn_io_recv}
use nabud.ConnIo.Recv.{bytes_then, recv_all}
use nabud.Stext.{StextFile, fileio, ok, stext_file_find}
use nabud.Stext.Files.{Round}
use nabud.Stext.Transfer.{CalmTransfers}
use nabud.Stext.Changes.{find-changed}
use nabud.Retronet.{
  RnExchange, with_io, with_file, with_transfers, on_request, conn_recv, get16, get32,
  size_of_backing,
}

-- The file at a slot is one of the system with the bytes `content`; no transfer to come and no call on
-- an open file fails, and there is memory.
pub record Ready (slot : ℕ) (f : StextFile) (content : List ℕ) (e : RnExchange) : Type 0 where
  pub found : stext_file_find slot e.ctx.stext.files ≡ some f
  pub live : f.backing ≡ fileio content
  pub calm : CalmTransfers e.system.transfers
  pub stats : e.system.getattr ≡ none
  pub truncates : (size : ℕ) → e.system.truncate size ≡ none
  pub memory : e.system.malloc_ok ≡ true

abbrev pub holding : StextFile → List ℕ → StextFile
holding f content = record f { backing = fileio content }

-- A handler has returned; the file at the slot has the bytes `content` now, and `es` is what is left
-- to be received.
pub record Became (slot : ℕ) (f : StextFile) (content : List ℕ) (es : List RecvEvent)
    (e : RnExchange) (o : Outcome (Unit {0} × RnExchange)) : Type 0 where
  pub after : RnExchange
  pub runs : o ≡ done (tt, after)
  pub ready : Ready slot (holding f content) content after
  pub input : after.io ≡ record e.io { recvs = es }

abbrev pub received : List RecvEvent → RnExchange → RnExchange
received es e = with_io e (record e.io { recvs = es })

pub on_request-run :
    (size b : ℕ) (bytes : List ℕ) (es : List RecvEvent) (e : RnExchange)
    (handle : List ℕ → M RnExchange (Unit {0}))
    → length (b ∷ bytes) ≡ size
    → e.io.recvs ≡ bytes_then (b ∷ bytes) es
    → on_request size handle e ≡ handle (b ∷ bytes) (received es e)
on_request-run size b bytes es e handle len h =
    bind-done (conn_recv size) _ e (true, b ∷ bytes) (received es e)
      (zoom-done (λ e. e.io) with_io (conn_io_recv size) e (true, b ∷ bytes)
        (record e.io { recvs = es })
        (ap (λ n. conn_io_recv n e.io) (sym len) ∙ recv_all b bytes es e.io h))

-- A request for `len` bytes at `offset` of the file at a slot.
abbrev pub range_request : ℕ → ℕ → ℕ → List ℕ
range_request slot offset len = slot ∷ (nabu_set_uint32 offset ++ nabu_set_uint16 len)

pub range_request-size : (slot offset len : ℕ) → length (range_request slot offset len) ≡ 7
unfolding nabu_set_uint32 nabu_set_uint16
range_request-size slot offset len = refl

offset_field :
    (slot offset len : ℕ)
    → get32 1 (range_request slot offset len) ≡ nabu_get_uint32 (nabu_set_uint32 offset)
unfolding nabu_set_uint32 nabu_set_uint16 get32
offset_field slot offset len = refl

length_field :
    (slot offset len : ℕ)
    → get16 5 (range_request slot offset len) ≡ nabu_get_uint16 (nabu_set_uint16 len)
unfolding nabu_set_uint32 nabu_set_uint16 get16
length_field slot offset len = refl

pub range_request-fields :
    (slot offset len : ℕ)
    → offset < 2 ^ 32
    → len < 2 ^ 16
    → (get32 1 (range_request slot offset len) ≡ offset)
      × (get16 5 (range_request slot offset len) ≡ len)
range_request-fields slot offset len h k = (
  offset_field slot offset len ∙ (get-set offset).4 ∙ omega arith,
  length_field slot offset len ∙ (get-set len).0 ∙ omega arith,
)

pub changed-Ready :
    (slot : ℕ) (f : StextFile) (content content' : List ℕ) (e : RnExchange)
    → Ready slot f content e
    → Ready slot (holding f content') content' (with_file f.slot (fileio content') e)
changed-Ready slot f content content' e h = record {
  found = (find-changed slot f (fileio content') e.ctx.stext.files h.found).1;
  live = refl;
  calm = h.calm;
  stats = h.stats;
  truncates = h.truncates;
  memory = h.memory;
}

pub transfers-Ready :
    (slot : ℕ) (f : StextFile) (content : List ℕ) (ts : List (List Round)) (e : RnExchange)
    → Ready slot f content e
    → CalmTransfers ts
    → Ready slot f content (with_transfers ts e)
transfers-Ready slot f content ts e h calm = record {
  found = h.found;
  live = h.live;
  calm = calm;
  stats = h.stats;
  truncates = h.truncates;
  memory = h.memory;
}

pub received-Ready :
    (slot : ℕ) (f : StextFile) (content : List ℕ) (es : List RecvEvent) (e : RnExchange)
    → Ready slot f content e
    → Ready slot f content (received es e)
received-Ready slot f content es e h = record {
  found = h.found;
  live = h.live;
  calm = h.calm;
  stats = h.stats;
  truncates = h.truncates;
  memory = h.memory;
}

-- The same file, when nothing is done to it.
pub same-Ready :
    (slot : ℕ) (f : StextFile) (content content' : List ℕ) (e : RnExchange)
    → content ≡ content'
    → Ready slot f content e
    → Ready slot (holding f content') content' e
same-Ready slot f content content' e same h =
    subst (λ l. Ready slot (holding f l) l e) same
      record {
        found = h.found ∙ ap (λ b. some (record f { backing = b })) h.live;
        live = refl;
        calm = h.calm;
        stats = h.stats;
        truncates = h.truncates;
        memory = h.memory;
      }

pub size-run :
    (slot : ℕ) (f : StextFile) (content : List ℕ) (e : RnExchange)
    → Ready slot f content e
    → size_of_backing e.system.getattr f.backing ≡ ok (length content)
size-run slot f content e h = ap₂ size_of_backing h.stats h.live
