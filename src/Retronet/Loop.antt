-- ===== src/Retronet/Loop.antt =====
-- The adaptor with both protocols served: what `Services` asks of RetroNet is filled by
-- `retronet_request`, and the event loop ends with it.
use nabud.Prelude.{ℕ, ◌≤◌, ◌<◌, arith, List, Bool, Option}
use nabud.Prelude.Monad.{M, Outcome, done, blocked, fault, zoom}
use nabud.Prelude.Keeps.{Keeps, Kept}
use nabud.Prelude.Measure.{Within, Quiet}
use nabud.Adaptor.{NabuConnection, NabuImage, Tm}
use nabud.Adaptor.Messages.{adaptor_event_loop}
use nabud.Adaptor.Rounds
use nabud.Adaptor.Loop.{Ends}
use nabud.Nhacp.{Exchange}
use nabud.Nhacp.Quiet.{NoReception}
use nabud.Nhacp.Service.{NhacpRest, OtherServices, services_with_nhacp, event_loop_with_nhacp-Ends}
use nabud.Retronet.{RnExchange, RnSystem, RetronetContext, PathCall}
use nabud.Retronet.Serve.{RetronetConn, retronet_request}
use nabud.Retronet.Service.{AtMost, Bounded, request-Bounded}

-- What a connection keeps for RetroNet, and for the components but NHACP.
pub record RetronetRest (R : Type 0) : Type 0 where
  pub retronet_enabled : Bool
  pub retronet : Option RetronetContext
  pub file_root : Option (List ℕ)
  pub system : RnSystem
  pub calls : List PathCall
  pub others : R

abbrev pub Conn : Type 0 → Type 0
Conn R = NabuConnection (NhacpRest (RetronetRest R))

module _ {R : Type 0} where
  abbrev retronet_part : Conn R → RetronetConn
  retronet_part c =
      let r = c.rest.others in
      record {
        io = c.io;
        retronet_enabled = r.retronet_enabled;
        retronet = r.retronet;
        file_root = r.file_root;
        system = r.system;
        calls = r.calls;
      }

  abbrev with_retronet_part : Conn R → RetronetConn → Conn R
  with_retronet_part c d =
      let rest = c.rest in
      let r = rest.others in
      record c {
        io = d.io;
        rest = record rest {
          others = record r { retronet = d.retronet; system = d.system; calls = d.calls };
        };
      }

-- What the adaptor calls besides the two protocols.
pub record BaseServices (R : Type 0) : Type 0 where
  pub image_load : ℕ → Conn R → Option NabuImage × Conn R
  pub image_unload : NabuImage → Bool → Conn R → Conn R
  pub image_channel_select : ℕ → Conn R → Conn R
  pub conn_reboot : Conn R → Conn R
  pub localtime : NhacpRest (RetronetRest R) → Option Tm
  pub malloc_ok : ℕ → Bool

-- None of it adds rounds of reception.
pub record BaseQuiet {R : Type 0} (o : BaseServices R) : Type 0 where
  pub load : (image : ℕ) (c : Conn R) → Rounds.left (o.image_load image c).1 ≤ Rounds.left c
  pub unload :
      (img : NabuImage) (last : Bool) (c : Conn R)
      → Rounds.left (o.image_unload img last c) ≤ Rounds.left c
  pub select :
      (channel : ℕ) (c : Conn R) → Rounds.left (o.image_channel_select channel c) ≤ Rounds.left c
  pub reboot : (c : Conn R) → Rounds.left (o.conn_reboot c) ≤ Rounds.left c

module _ {R : Type 0} (adapter_id : List ℕ) (other_nhacp : ℕ → M Exchange (Unit {0}))
    (other_retronet : ℕ → M RnExchange (Unit {0})) where
  abbrev retronet_service : ℕ → M (Conn R) Bool
  retronet_service msg = zoom retronet_part with_retronet_part (retronet_request other_retronet msg)

  abbrev pub with_retronet_service : BaseServices R → OtherServices (RetronetRest R)
  with_retronet_service o = record {
    image_load = o.image_load;
    image_unload = o.image_unload;
    image_channel_select = o.image_channel_select;
    conn_reboot = o.conn_reboot;
    retronet_request = retronet_service;
    localtime = o.localtime;
    malloc_ok = o.malloc_ok;
  }

  part-Within :
      (n : ℕ) (c : Conn R) (r : Outcome (Bool × RetronetConn))
      → Kept (Bounded n) r
      → Within Rounds.left n (elim r [
        | done (a, d) ↦ done (a, with_retronet_part c d)
        | blocked ↦ blocked
        | fault ↦ fault
      ])
  part-Within n c (done (a, d)) h = h
  part-Within n c blocked h = tt
  part-Within n c fault h = tt

  retronet_service-Quiet :
      ((n msg : ℕ) → Keeps (AtMost n) (other_retronet msg))
      → (msg : ℕ) → Quiet Rounds.left (retronet_service msg)
  retronet_service-Quiet other msg = record {
    run = λ c.
        let n : ℕ = Rounds.left c in
        part-Within n c (retronet_request other_retronet msg (retronet_part c))
          ((request-Bounded other_retronet n (other n) msg).run (retronet_part c) (omega arith));
  }

  -- If what the adaptor calls besides the two protocols adds no rounds of reception, and neither do
  -- the handlers that are not modelled, then the adaptor's event loop, with the requests of NHACP and of
  -- RetroNet served, does not run out of a fuel of more than the rounds of reception to come.
  pub event_loop_with_requests-Ends :
      (o : BaseServices R) (fuel : ℕ) (c : Conn R)
      → BaseQuiet o
      → ((type : ℕ) → NoReception (other_nhacp type))
      → ((n msg : ℕ) → Keeps (AtMost n) (other_retronet msg))
      → Rounds.left c < fuel
      → Ends (
          adaptor_event_loop
            (services_with_nhacp adapter_id other_nhacp (with_retronet_service o))
            fuel
            c)
  event_loop_with_requests-Ends o fuel c q quiet other h =
      event_loop_with_nhacp-Ends adapter_id other_nhacp (with_retronet_service o) fuel c
        (record {
          load = q.load;
          unload = q.unload;
          select = q.select;
          reboot = q.reboot;
          retronet = retronet_service-Quiet other;
        })
        quiet h
