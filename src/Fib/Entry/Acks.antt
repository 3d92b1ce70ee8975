-- ===== src/Fib/Entry/Acks.antt =====
-- SetAckingStatus of MulticastFIB::Entry: a flow that stops and starts again to acknowledge.
use nrlsmf.Base.{ℕ, ◌+◌, ◌≤◌, ◌<◌, ◌≡◌, true, false, List, [], ◌∷◌, map, All, word}
use nrlsmf.Fib.Ticks.{tick_age_max}
use nrlsmf.Fib.Relay.{UpstreamRelay, AckingCondition, ack_pending, refresh_relay, preset_relay}
use nrlsmf.Fib.Relay.Due.{preset_relay_due}
use nrlsmf.Fib.Entry.{FibEntry, set_acking_status}

-- The next packet from a relay is acknowledged.
abbrev pub IsDueNext : AckingCondition → ℕ → UpstreamRelay → Type 0
IsDueNext c now r = ack_pending c (refresh_relay now r) ≡ true

each_preset :
    (c : AckingCondition) (now : ℕ) (rs : List UpstreamRelay)
    → 0 < c.count_threshold
    → c.count_threshold + 1 < word
    → c.interval_min ≤ tick_age_max
    → All (IsDueNext c now) (map (preset_relay c.count_threshold) rs)
each_preset c now [] h small early = tt
each_preset c now (r ∷ rs) h small early =
    (preset_relay_due c r now h small early, each_preset c now rs h small early)

-- If an entry is acknowledging, its packet threshold is not 0 and at most `2 ^ 32 - 2`, and its
-- least interval is at most TICK_AGE_MAX, then after SetAckingStatus with false and then with
-- true, the next Refresh of each of its upstream relays, at any tick, makes AckPending true of
-- that relay.
pub set_acking_status_due :
    (e : FibEntry) (now : ℕ)
    → e.acking_status ≡ true
    → 0 < e.acking_condition.count_threshold
    → e.acking_condition.count_threshold + 1 < word
    → e.acking_condition.interval_min ≤ tick_age_max
    → All
        (IsDueNext e.acking_condition now)
        (set_acking_status true (set_acking_status false e)).upstream_list
unfolding set_acking_status
set_acking_status_due e now acks h small early =
    simp acks (each_preset e.acking_condition now e.upstream_list h small early)
