-- ===== src/Nhacp/Sound.antt =====
-- The session numbers of a connection: what allocates, links, changes and frees contexts keeps the
-- numbers of the linked ones different and below NHACP_SESSION_CREATE.
use nabud.Prelude.{
  ℕ, zero, suc, ◌+◌, ◌<◌, ◌≡◌, refl, arith, List, [], ◌∷◌, Bool, true, false, ◌==◌, ◌&&◌,
}
use nabud.Prelude.{if-cases, ◌≤◌, ◌≢◌, Option, none, some, Bool-cases, inl, inr, not}
use nabud.Nhacp.{NhacpContext, NhacpSession, nhacp_session_create}
use nabud.Nhacp.Sessions.{removed, with_session, nhacp_context_lookup}
use nabud.Nhacp.Sessions.{reset_loop, is_none, free_session_id}

-- None of the linked contexts has the number.
abbrev pub Unused : ℕ → List NhacpContext → Type 0
Unused i cs = nhacp_context_lookup i cs ≡ none

-- A linked context has a number below NHACP_SESSION_CREATE that no linked context behind it has.
abbrev pub Placed : NhacpContext → List NhacpContext → Type 0
Placed ctx rest =
    ctx.linked ≡ true → (ctx.session_id < nhacp_session_create) × Unused ctx.session_id rest

abbrev pub Sound : List NhacpContext → Type 0
Sound [] = Unit
Sound (ctx ∷ rest) = Placed ctx rest × Sound rest

abbrev has_number : ℕ → NhacpContext → Bool
has_number i ctx = ctx.linked && ctx.session_id == i

Unused-cons :
    (i : ℕ) (ctx : NhacpContext) (rest : List NhacpContext)
    → has_number i ctx ≡ false
    → Unused i rest
    → Unused i (ctx ∷ rest)
unfolding nhacp_context_lookup
Unused-cons i ctx rest e u = rw e u

Unused-uncons :
    (i : ℕ) (ctx : NhacpContext) (rest : List NhacpContext)
    → Unused i (ctx ∷ rest)
    → (has_number i ctx ≡ false) × Unused i rest
unfolding nhacp_context_lookup
Unused-uncons i ctx rest u = elim (Bool-cases (has_number i ctx)) [
  | inl e ↦ absurd (ground arith)
  | inr e ↦ (e, ground arith)
]

pub removed-Unused : (i p : ℕ) (cs : List NhacpContext) → Unused i cs → Unused i (removed p cs)
removed-Unused i p [] u = u
removed-Unused i p (ctx ∷ rest) u =
    let (e, v) = Unused-uncons i ctx rest u in
    elim (Bool-cases (ctx.address == p)) [
      | inl same ↦ rw same v
      | inr other ↦ rw other (Unused-cons i ctx (removed p rest) e (removed-Unused i p rest v))
    ]

pub removed-Sound : (p : ℕ) (cs : List NhacpContext) → Sound cs → Sound (removed p cs)
removed-Sound p [] h = tt
removed-Sound p (ctx ∷ rest) (placed, h) = elim (Bool-cases (ctx.address == p)) [
  | inl same ↦ rw same h
  | inr other ↦ rw other (
    (λ l. ((placed l).0, removed-Unused ctx.session_id p rest (placed l).1)),
    removed-Sound p rest h,
  )
]

with_session-Unused :
    (i p : ℕ) (s : NhacpSession) (cs : List NhacpContext)
    → Unused i cs
    → Unused i (with_session p s cs)
with_session-Unused i p s [] u = u
with_session-Unused i p s (ctx ∷ rest) u =
    let (e, v) = Unused-uncons i ctx rest u in
    elim (Bool-cases (ctx.address == p)) [
      | inl same ↦ rw same (Unused-cons i (record ctx { session = s }) rest e v)
      | inr other ↦
          rw other (Unused-cons i ctx (with_session p s rest) e (with_session-Unused i p s rest v))
    ]

pub with_session-Sound :
    (p : ℕ) (s : NhacpSession) (cs : List NhacpContext) → Sound cs → Sound (with_session p s cs)
with_session-Sound p s [] h = tt
with_session-Sound p s (ctx ∷ rest) (placed, h) = elim (Bool-cases (ctx.address == p)) [
  | inl same ↦ rw same (placed, h)
  | inr other ↦ rw other (
    (λ l. ((placed l).0, with_session-Unused ctx.session_id p s rest (placed l).1)),
    with_session-Sound p s rest h,
  )
]

reset-Unused :
    (i : ℕ) (octx : Option ℕ) (cs : List NhacpContext) → Unused i cs → Unused i (reset_loop octx cs)
unfolding reset_loop
reset-Unused i octx [] u = u
reset-Unused i none (ctx ∷ rest) u =
    let (e, v) = Unused-uncons i ctx rest u in
    let ih = reset-Unused i none rest v in
    if-cases (Unused i) ctx.linked _ _ (λ l. ih)
      (λ l. Unused-cons i ctx (reset_loop none rest) e ih)
reset-Unused i (some p) (ctx ∷ rest) u =
    let (e, v) = Unused-uncons i ctx rest u in
    let ih = reset-Unused i (some p) rest v in
    if-cases (Unused i) (not ctx.linked) _ _
      (λ l. Unused-cons i ctx (reset_loop (some p) rest) e ih)
      (λ l.
        if-cases (Unused i) (ctx.address == p) _ _
          (λ same. Unused-cons i _ (reset_loop (some p) rest) e ih) (λ other. ih))

pub reset-Sound : (octx : Option ℕ) (cs : List NhacpContext) → Sound cs → Sound (reset_loop octx cs)
unfolding reset_loop
reset-Sound octx [] h = tt
reset-Sound none (ctx ∷ rest) (placed, h) =
    let ih = reset-Sound none rest h in
    if-cases Sound ctx.linked _ _ (λ l. ih)
      (λ l. ((λ k. ((placed k).0, reset-Unused ctx.session_id none rest (placed k).1)), ih))
reset-Sound (some p) (ctx ∷ rest) (placed, h) =
    let ih = reset-Sound (some p) rest h in
    let still : Placed ctx (reset_loop (some p) rest) =
      λ k. ((placed k).0, reset-Unused ctx.session_id (some p) rest (placed k).1) in
    if-cases Sound (not ctx.linked) _ _ (λ l. (still, ih))
      (λ l. if-cases Sound (ctx.address == p) _ _ (λ same. (still, ih)) (λ other. ih))

-- The search stops at the lowest number that is free, or at the end of its range.
pub record Lowest (first last found : ℕ) (cs : List NhacpContext) : Type 0 where
  pub inside : (first ≤ found) × (found ≤ last)
  pub free : found < last → Unused found cs
  pub least : (i : ℕ) → first ≤ i → i < found → nhacp_context_lookup i cs ≢ none

pub is_none-Unused : (o : Option NhacpContext) → is_none o ≡ true → o ≡ none
is_none-Unused none e = refl
is_none-Unused (some ctx) e = absurd cc

is_none-used : (o : Option NhacpContext) → is_none o ≡ false → o ≢ none
is_none-used none e = absurd cc
is_none-used (some ctx) e = cc

pub free_session_id-Lowest :
    (fuel first : ℕ) (cs : List NhacpContext)
    → Lowest first (first + fuel) (free_session_id fuel first cs) cs
unfolding free_session_id
free_session_id-Lowest zero first cs = record {
  inside = (omega arith, omega arith);
  free = λ h. absurd (omega arith);
  least = λ i h k. absurd (omega arith);
}
free_session_id-Lowest (suc fuel) first cs =
    let ih = free_session_id-Lowest fuel (first + 1) cs in
    if-cases (λ found. Lowest first (first + suc fuel) found cs)
      (is_none (nhacp_context_lookup first cs)) _ _
      (λ e. record {
        inside = (omega arith, omega arith);
        free = λ h. is_none-Unused (nhacp_context_lookup first cs) e;
        least = λ i h k. absurd (omega arith);
      })
      (λ e. record {
        inside = (omega (arith, ih.inside.0), omega (arith, ih.inside.1));
        free = λ h. ih.free (omega arith);
        least = λ i h k. elim (Bool-cases (i == first)) [
          | inl same ↦
              let here : i ≡ first = ground arith in
              rw here (is_none-used (nhacp_context_lookup first cs) e)
          | inr other ↦ ih.least i (ground arith) k
        ];
      })
