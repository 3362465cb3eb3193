-- ===== src/Table.antt =====
-- DwmMclogUdpEndpoint.hh and DwmMclogMulticastSources.cc: endpoints with their order, and the
-- table of sources, a std::map that is searched by that order. Addresses are libDwm's, so their
-- order and equality are a parameter. `none` is a failed assertion in a source.
pub mod Order
pub mod Isolation
use mclog.Base.{
  ℕ, ◌+◌, ◌-◌, ◌≡◌, Bool, true, false, ◌&&◌, not, List, [], ◌∷◌, Option, none, some, ltb, ◌==◌,
  if◌then◌else◌, ◌>>=◌,
}
use mclog.Packet.{Bytes, Aead}
use mclog.Message.{Message, StreamIo}
use mclog.Source.{BacklogEntry, MulticastSource, Times, new_source, process_packet, seconds}

-- `IpAddress::operator <` and `operator ==`
pub record Addresses : Type 1 where
  pub IpAddress : Type 0
  pub less : IpAddress → IpAddress → Bool
  pub equal : IpAddress → IpAddress → Bool

pub record UdpEndpoint (a : Addresses) : Type 0 where
  pub addr : a.IpAddress
  pub port : ℕ

module _ (a : Addresses) where
  -- `operator <`
  unfoldable pub endpoint_less : UdpEndpoint a → UdpEndpoint a → Bool
  endpoint_less e f =
      if a.less e.addr f.addr
      then true
      else if a.equal e.addr f.addr
      then ltb e.port f.port
      else false

  -- `operator ==`
  unfoldable pub endpoint_equal : UdpEndpoint a → UdpEndpoint a → Bool
  endpoint_equal e f = a.equal e.addr f.addr && e.port == f.port

  -- When std::map takes two keys for the same.
  unfoldable pub equivalent : UdpEndpoint a → UdpEndpoint a → Bool
  equivalent e f = not (endpoint_less e f) && not (endpoint_less f e)

  abbrev pub Sources : Type 0
  Sources = List (UdpEndpoint a × MulticastSource)

  -- `_sources.find`, and the source at a key replaced or inserted.
  unfoldable pub find_source : UdpEndpoint a → Sources → Option MulticastSource
  find_source e [] = none
  find_source e ((f, s) ∷ rest) = if equivalent e f then some s else find_source e rest

  unfoldable pub put_source : UdpEndpoint a → MulticastSource → Sources → Sources
  put_source e s [] = (e, s) ∷ []
  put_source e s ((f, old) ∷ rest) =
      let others = put_source e s rest in
      if equivalent e f then (f, s) ∷ rest else (f, old) ∷ others

  -- `ClearOld`; the clock is past its first twenty seconds.
  unfoldable pub clear_old : ℕ → Sources → Sources
  clear_old now [] = []
  clear_old now ((f, s) ∷ rest) =
      let others = clear_old now rest in
      if ltb s.last_receive_time (now - seconds 20) then others else (f, s) ∷ others

  module _ (c : Aead) (io : StreamIo) (accepts : List BacklogEntry → Bool) where
    -- `ProcessPacket`, where `now` is the clock's reading in `ClearOld`.
    unfoldable pub process_from :
        UdpEndpoint a → Times → ℕ → Bytes → Sources → Option (List Message × Sources)
    process_from e t now bytes table = elim (find_source e table) [
      | some s ↦ (do
        (rc, ms, s') ← process_packet c io accepts t bytes s
        some (ms, put_source e s' table))
      | none ↦ (do
        (rc, ms, s') ← process_packet c io accepts t bytes new_source
        some (ms, clear_old now (put_source e s' table)))
    ]
