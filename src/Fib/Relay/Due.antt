-- ===== src/Fib/Relay/Due.antt =====
-- When AckPending reports that an acknowledgement is due.
use nrlsmf.Base.{
  ℕ, suc, ◌+◌, ◌-◌, ◌%◌, ◌≤◌, ◌<◌, min, ◌≡◌, refl, true, false, List, [], ◌∷◌, arith, leb, ◌==◌,
  sub32, word, length,
}
use nrlsmf.Fib.Ticks.{tick_age_max, tick, Ordered, latest, latest_le, sub32-tick}
use nrlsmf.Fib.Activity.{refresh_activity}
use nrlsmf.Fib.Relay.{
  UpstreamRelay, AckingCondition, is_due, ack_pending, update_interval, refresh_relay, refresh_at,
  reset_relay, preset_relay,
}

-- The state of a relay that was reset at `first` and has had `n` packets, the last one at `last`.
record Counted (r : UpstreamRelay) (first last n : ℕ) : Type 0 where
  count_is : r.update_count ≡ n
  start_is : r.update_start ≡ tick first
  runs : r.update_max ≡ false
  seen : r.activity_status.age_tick ≡ tick last
  valid : r.activity_status.age_max ≡ false

refresh_relay-Counted :
    (r : UpstreamRelay) (first last n t : ℕ)
    → 0 < n
    → suc n < word
    → Counted r first last n
    → Counted (refresh_relay (tick t) r) first t (suc n)
unfolding refresh_relay refresh_activity
refresh_relay-Counted r first last n t some_count small c =
    let counts : (r.update_count == 0) ≡ false = ground (arith, c.count_is) in
    simp counts (record {
      count_is = omega (arith, c.count_is);
      start_is = c.start_is;
      runs = c.runs;
      seen = refl;
      valid = refl;
    })

refresh_at-Counted :
    (r : UpstreamRelay) (first last n m : ℕ) (ts : List ℕ)
    → 0 < n
    → m ≡ n + length ts
    → m < word
    → Counted r first last n
    → Counted (refresh_at ts r) first (latest last ts) m
unfolding refresh_at
refresh_at-Counted r first last n m [] h e small c = let same : m ≡ n = omega arith in rw same c
refresh_at-Counted r first last n m (t ∷ ts) h e small c =
    refresh_at-Counted (refresh_relay (tick t) r) first t (suc n) m ts (omega arith) (omega arith)
      small (refresh_relay-Counted r first last n t h (omega arith) c)

interval_since :
    (r : UpstreamRelay) (first last n : ℕ)
    → Counted r first last n
    → first ≤ last
    → last < first + word
    → update_interval r ≡ min (last - first) tick_age_max
unfolding update_interval
interval_since r first last n c h g =
    rw (c.runs, c.valid, c.seen, c.start_is) (ground (arith, sub32-tick last first h g))

-- After Reset of an upstream relay and Refresh at times that do not run back, fewer than `2 ^
-- 32 - 1` of them and within less than `2 ^ 32` ticks, AckPending applies its thresholds to the
-- number of calls of Refresh and to the time from the Reset to the last of them, or
-- TICK_AGE_MAX if that is less.
pub ack_pending-is_due :
    (c : AckingCondition) (r : UpstreamRelay) (first : ℕ) (ts : List ℕ)
    → Ordered first ts
    → latest first ts < first + word
    → suc (length ts) < word
    → ack_pending c (refresh_at ts (reset_relay (tick first) r))
      ≡ is_due c (length ts) (min (latest first ts - first) tick_age_max)
unfolding ack_pending reset_relay refresh_activity
ack_pending-is_due c r first ts o turn small =
    let k =
      refresh_at-Counted (reset_relay (tick first) r) first first 1 (suc (length ts)) ts
        (omega arith) (omega arith) small
        (record { count_is = refl; start_is = refl; runs = refl; seen = refl; valid = refl }) in
    let s = refresh_at ts (reset_relay (tick first) r) in
    let counted : sub32 s.update_count 1 ≡ length ts = omega (arith, k.count_is) in
    rw
      (
        counted,
        interval_since s first (latest first ts) (suc (length ts)) k (latest_le first ts o) turn,
      )
      refl

-- A relay that was preset with the threshold is due with its next packet.
pub preset_relay_due :
    (c : AckingCondition) (r : UpstreamRelay) (now : ℕ)
    → 0 < c.count_threshold
    → c.count_threshold + 1 < word
    → c.interval_min ≤ tick_age_max
    → ack_pending c (refresh_relay now (preset_relay c.count_threshold r)) ≡ true
unfolding ack_pending refresh_relay preset_relay update_interval is_due
preset_relay_due c r now h small early =
    let counts : (c.count_threshold == 0) ≡ false = ground arith in
    let reached : leb c.count_threshold (sub32 ((c.count_threshold + 1) % word) 1) ≡ true =
      ground arith in
    let waits : leb c.interval_min tick_age_max ≡ true = ground arith in
    simp (counts, reached, waits) refl
