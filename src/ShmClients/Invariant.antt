-- ===== src/ShmClients/Invariant.antt =====
-- What every world of Lab10 satisfies that a schedule reaches with no signal during a wait: the count
-- of the mutex, the order of the start, and whole packets in the segment.
mod Mutex
mod Order
mod Writes
mod Packets
pub use Mutex.{inside, Locked, created, after-eq-some}
pub use Order.{begun, past_wait, Ordered}
pub use Writes.{Settled, IsPacket, packet, Tidy, mid}
use Mutex.{step-Locked}
use Order.{step-Ordered}
use Packets.{step-Tidy}
use unx.Prelude.{◌≡◌, refl, false, true, arith}
use unx.ShmClients.{World, Reach, start, later, fresh}

pub record Inv (w : World) : Type 0 where
  pub locked : Locked w
  pub ordered : Ordered w
  pub tidy : Tidy w

pub Reach-Inv : {w : World} → Reach true w → Inv w
Reach-Inv start = record {
  locked = record { permits = refl; named = λ h. cc; unmade = λ h. refl; made = λ h. cc };
  ordered = record { posted = λ h. absurd (omega arith); waited1 = λ h. cc; waited2 = λ h. cc };
  tidy = record { at1 = tt; at2 = tt; at3 = tt; settled = λ h z. cc };
}
Reach-Inv (later {w} {w'} c e r calm st) =
    let v = Reach-Inv r in
    record {
      locked = step-Locked w w' c e calm st v.locked;
      ordered = step-Ordered w w' c e calm st v.ordered;
      tidy = step-Tidy w w' c e calm st v.locked v.ordered v.tidy;
    }
