-- ===== src/Fib/Relay.antt =====
-- MulticastFIB::UpstreamRelay of include/mcastFib.h and src/common/mcastFib.cpp: when a flow's
-- previous hop is due for an acknowledgement. The fields that an EM-ADV sets are left out: no
-- function here reads them.
pub mod Due
use nrlsmf.Base.{
  ℕ, ◌+◌, ◌-◌, ◌%◌, Bool, true, false, not, ◌&&◌, ◌||◌, List, [], ◌∷◌, leb, ◌==◌, if◌then◌else◌,
  sub32, word,
}
use nrlsmf.Fib.Ticks.{tick_age_max, tick, is_aged}
use nrlsmf.Fib.Activity.{
  ActivityStatus, no_activity, refresh_activity, activity_age, activity_is_valid,
}

pub data RelayStatus : Type 0 where
  nullary : RelayStatus
  primary : RelayStatus
  secondary : RelayStatus

pub record UpstreamRelay : Type 0 where
  pub relay_addr : List ℕ
  pub relay_iface : ℕ
  pub relay_status : RelayStatus
  pub update_count : ℕ
  pub update_start : ℕ
  pub update_max : Bool
  pub activity_status : ActivityStatus

-- The constructor with an address.
unfoldable pub new_relay : List ℕ → ℕ → UpstreamRelay
new_relay addr index = record {
  relay_addr = addr;
  relay_iface = index;
  relay_status = nullary;
  update_count = 0;
  update_start = 0;
  update_max = true;
  activity_status = no_activity;
}

-- Reset and Preset.
unfoldable pub reset_relay : ℕ → UpstreamRelay → UpstreamRelay
reset_relay now r = record r {
  update_count = 1;
  update_start = now;
  update_max = false;
  activity_status = refresh_activity now true r.activity_status;
}

unfoldable pub preset_relay : ℕ → UpstreamRelay → UpstreamRelay
preset_relay count r = record r { update_count = count; update_max = true }

-- Refresh, on each packet from the relay.
unfoldable pub refresh_relay : ℕ → UpstreamRelay → UpstreamRelay
refresh_relay now r =
    let s =
      if r.update_count == 0 then record r { update_start = now; update_max = false } else r in
    record s {
      update_count = (s.update_count + 1) % word;
      activity_status = refresh_activity now true s.activity_status;
    }

-- Age.
unfoldable pub age_relay : ℕ → UpstreamRelay → ℕ × UpstreamRelay
age_relay now r =
    let a = activity_age now r.activity_status in
    let s = record r { activity_status = a.1 } in
    if a.0 == tick_age_max
    then (tick_age_max, s)
    else if not s.update_max && is_aged (sub32 now s.update_start)
    then (a.0, record s { update_max = true })
    else (a.0, s)

-- GetUpdateInterval.
unfoldable pub update_interval : UpstreamRelay → ℕ
update_interval r =
    let interval = sub32 r.activity_status.age_tick r.update_start in
    if r.update_max || not (activity_is_valid r.activity_status)
    then tick_age_max
    else if is_aged interval
    then tick_age_max
    else interval

-- The conditions that SetAckingCondition gives to an entry.
pub record AckingCondition : Type 0 where
  pub count_threshold : ℕ
  pub interval_max : ℕ
  pub interval_min : ℕ

-- The test of AckPending, and of UpdatePending of the entry, on a count of packets and an interval.
unfoldable pub is_due : AckingCondition → ℕ → ℕ → Bool
is_due c count interval =
    (not (c.count_threshold == 0) && (leb c.count_threshold count && leb c.interval_min interval))
    || (not (c.interval_max == 0) && leb c.interval_max interval)

-- AckPending. The packet that is being handled is not counted.
unfoldable pub ack_pending : AckingCondition → UpstreamRelay → Bool
unfolding is_due update_interval
ack_pending c r = is_due c (sub32 r.update_count 1) (update_interval r)

-- Refresh at the times of a list.
unfoldable pub refresh_at : List ℕ → UpstreamRelay → UpstreamRelay
unfolding refresh_relay
refresh_at [] r = r
refresh_at (t ∷ ts) r = refresh_at ts (refresh_relay (tick t) r)
