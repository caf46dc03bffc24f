-- ===== src/Nhacp/Allocation.antt =====
-- What number a new session gets.
use nabud.Prelude.{ℕ, ◌<◌, ◌≤◌, ◌≡◌, ◌≢◌, Bool, true, false}
use nabud.Prelude.{none}
use nabud.Prelude.Monad.{Outcome, done}
use nabud.Nhacp.{NhacpContext, nhacp_session_create}
use nabud.Nhacp.Sessions.{NhacpConn, nhacp_context_lookup, link_context}
use nabud.Nhacp.Sound.{Unused}

-- The context is linked with the lowest number from 1 on that is not in use.
abbrev pub GetsLowest : NhacpContext → NhacpConn → Outcome (Bool × NhacpConn) → Type 0
GetsLowest ctx c o =
    (i : ℕ) × (o ≡ done (true, link_context ctx i c))
    × (1 ≤ i)
    × (i < nhacp_session_create)
    × Unused i c.contexts
    × ((j : ℕ) → 1 ≤ j → j < i → nhacp_context_lookup j c.contexts ≢ none)

-- Nothing changes, and all numbers are in use.
abbrev pub AllInUse : NhacpConn → Outcome (Bool × NhacpConn) → Type 0
AllInUse c o =
    (o ≡ done (false, c))
    × ((j : ℕ) → 1 ≤ j → j < nhacp_session_create → nhacp_context_lookup j c.contexts ≢ none)
