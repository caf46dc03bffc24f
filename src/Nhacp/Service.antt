-- ===== src/Nhacp/Service.antt =====
-- The adaptor with NHACP as nabud/nhacp.c serves it: what `Services` asks of NHACP is filled, and the
-- event loop ends with it.
use nabud.Prelude.{ℕ, suc, ◌≤◌, ◌<◌, arith, List, Bool, Option}
use nabud.Prelude.Monad.{M, Outcome, done, blocked, fault, zoom}
use nabud.Prelude.Keeps.{Kept}
use nabud.Prelude.Measure.{Within, Quiet}
use nabud.Adaptor.{NabuConnection, NabuImage, Services, Tm}
use nabud.Adaptor.Messages.{adaptor_event_loop}
use nabud.Adaptor.Rounds
use nabud.Adaptor.Loop.{Ends, event_loop-Ends}
use nabud.Nhacp.{Exchange, NhacpContext, System}
use nabud.Nhacp.Sessions.{NhacpConn}
use nabud.Nhacp.Serve.{nhacp_request}
use nabud.Nhacp.Quiet.{NoReception}
use nabud.Nhacp.Preserved.{request-Keeps}
use nabud.Nhacp.Rounds.{left, Bounded, bound-Closed}

-- What a connection keeps for NHACP, and for the other components.
pub record NhacpRest (R : Type 0) : Type 0 where
  pub baud : ℕ
  pub stop_bits : ℕ
  pub contexts : List NhacpContext
  pub next_address : ℕ
  pub system : System
  pub others : R

module _ {R : Type 0} where
  abbrev nhacp_part : NabuConnection (NhacpRest R) → NhacpConn
  nhacp_part c = record {
    io = c.io;
    baud = c.rest.baud;
    stop_bits = c.rest.stop_bits;
    contexts = c.rest.contexts;
    next_address = c.rest.next_address;
    system = c.rest.system;
  }

  abbrev with_part : NabuConnection (NhacpRest R) → NhacpConn → NabuConnection (NhacpRest R)
  with_part c d = record c {
    io = d.io;
    rest = record c.rest {
      contexts = d.contexts;
      next_address = d.next_address;
      system = d.system;
    };
  }

-- What the adaptor calls of the components other than NHACP.
pub record OtherServices (R : Type 0) : Type 0 where
  pub image_load :
      ℕ → NabuConnection (NhacpRest R) → Option NabuImage × NabuConnection (NhacpRest R)
  pub image_unload : NabuImage → Bool → NabuConnection (NhacpRest R) → NabuConnection (NhacpRest R)
  pub image_channel_select : ℕ → NabuConnection (NhacpRest R) → NabuConnection (NhacpRest R)
  pub conn_reboot : NabuConnection (NhacpRest R) → NabuConnection (NhacpRest R)
  pub retronet_request : ℕ → M (NabuConnection (NhacpRest R)) Bool
  pub localtime : NhacpRest R → Option Tm
  pub malloc_ok : ℕ → Bool

-- None of them adds rounds of reception.
pub record OthersQuiet {R : Type 0} (o : OtherServices R) : Type 0 where
  pub load :
      (image : ℕ) (c : NabuConnection (NhacpRest R))
      → Rounds.left (o.image_load image c).1 ≤ Rounds.left c
  pub unload :
      (img : NabuImage) (last : Bool) (c : NabuConnection (NhacpRest R))
      → Rounds.left (o.image_unload img last c) ≤ Rounds.left c
  pub select :
      (channel : ℕ) (c : NabuConnection (NhacpRest R))
      → Rounds.left (o.image_channel_select channel c) ≤ Rounds.left c
  pub reboot : (c : NabuConnection (NhacpRest R)) → Rounds.left (o.conn_reboot c) ≤ Rounds.left c
  pub retronet : (msg : ℕ) → Quiet Rounds.left (o.retronet_request msg)

module _ {R : Type 0} (adapter_id : List ℕ) (other_request : ℕ → M Exchange (Unit {0})) where
  -- The fuel for NHACP-0.0 mode is more than the rounds of reception to come.
  abbrev nhacp_service : ℕ → M (NabuConnection (NhacpRest R)) Bool
  nhacp_service msg c =
      zoom nhacp_part with_part
        (nhacp_request adapter_id other_request (suc (left (nhacp_part c))) msg) c

  abbrev pub services_with_nhacp : OtherServices R → Services
  services_with_nhacp o = record {
    Rest = NhacpRest R;
    image_load = o.image_load;
    image_unload = o.image_unload;
    image_channel_select = o.image_channel_select;
    conn_reboot = o.conn_reboot;
    retronet_request = o.retronet_request;
    nhacp_request = nhacp_service;
    localtime = o.localtime;
    malloc_ok = o.malloc_ok;
  }

  part-Within :
      (n : ℕ) (c : NabuConnection (NhacpRest R)) (r : Outcome (Bool × NhacpConn))
      → Kept (Bounded n) r
      → Within Rounds.left n
          (elim r [ done (a, d) ↦ done (a, with_part c d) | blocked ↦ blocked | fault ↦ fault ])
  part-Within n c (done (a, d)) h = h
  part-Within n c blocked h = tt
  part-Within n c fault h = tt

  nhacp_service-Quiet :
      ((type : ℕ) → NoReception (other_request type))
      → (msg : ℕ) → Quiet Rounds.left (nhacp_service msg)
  nhacp_service-Quiet quiet msg = record {
    run = λ c.
        let n : ℕ = left (nhacp_part c) in
        let cl = bound-Closed adapter_id other_request quiet n in
        part-Within n c (nhacp_request adapter_id other_request (suc n) msg (nhacp_part c)) (
          (request-Keeps adapter_id other_request (Bounded n) cl (suc n) msg).run (nhacp_part c)
            (omega arith));
  }

  -- If the components other than NHACP add no rounds of reception, and the handlers of NHACP that are
  -- not modelled receive nothing, then the adaptor's event loop, with requests of NHACP served by
  -- `nhacp_request`, does not run out of a fuel of more than the rounds of reception to come.
  pub event_loop_with_nhacp-Ends :
      (o : OtherServices R) (fuel : ℕ) (c : NabuConnection (NhacpRest R))
      → OthersQuiet o
      → ((type : ℕ) → NoReception (other_request type))
      → Rounds.left c < fuel
      → Ends (adaptor_event_loop (services_with_nhacp o) fuel c)
  event_loop_with_nhacp-Ends o fuel c q quiet h =
      event_loop-Ends (services_with_nhacp o) fuel c
        (q.load, q.unload, q.select, q.reboot, q.retronet, nhacp_service-Quiet quiet) h
