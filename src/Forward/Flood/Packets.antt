-- ===== src/Forward/Flood/Packets.antt =====
-- Smf::ProcessPacket where all groups of the interface flood.
use nrlsmf.Base.{ℕ, ◌≡◌, ◌≤◌, true, false, not, ◌&&◌, ◌||◌, List, ltb, All, length, map}
use nrlsmf.Dpd.Tree.{KeyTree}
use nrlsmf.Forward.Packet.{Ipv4, Ident, Config}
use nrlsmf.Forward.Plane.{Detector, Plane, Associate, cf, Request, Settings}
use nrlsmf.Forward.Flood.{select, Apart}

abbrev pub targets : List Associate → List ℕ
targets = map (λ (a : Associate). a.target)

-- An interface whose groups all flood, on targets that differ, and a packet that nothing else holds
-- back.
pub record Floods (c : Config) (q : Request) (g : Settings) (p : Ipv4) : Type 0 where
  pub enabled : c.relay_enabled ≡ true
  pub flooding : All (λ (a : Associate). a.relay ≡ cf) g.associates
  pub apart : Apart (targets g.associates)
  pub room : length g.associates ≤ q.size
  pub not_layered : g.is_layered ≡ false
  pub not_captured : (not q.outbound && c.tests.is_valid q.mac && c.is_own_address q.mac) ≡ false
  pub alive : (ltb 1 p.ttl || g.is_tunnel || q.outbound) ≡ true

module _ (D : Detector) (T : KeyTree) (c : Config) where
  -- The interfaces that have not seen the ids.
  abbrev pub unseen : Request → Ident → Plane D → List ℕ → List ℕ
  unseen q j p = select (λ y. not (D.is_duplicate q.now j (p.ifaces y).detector).0)
