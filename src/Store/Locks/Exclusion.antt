-- ===== src/Store/Locks/Exclusion.antt =====
-- Mutual exclusion in lib/store.go, whatever the goroutines call.
use mev_boost.Common.{◌*◌, ◌≤◌, ◌≡◌, List}
use mev_boost.Store.{Store}
use mev_boost.Store.Mutex.Exclusion.{IsConsistent-exclusive, writing_of, reading_of}
use mev_boost.Store.Locks.{Event}
use mev_boost.Store.Locks.Machine.{Machine, MachineRun, started}
use mev_boost.Store.Locks.Payloads.{payload_hold}
use mev_boost.Store.Locks.Responses.{response_hold}
use mev_boost.Store.Locks.Linear.{MachineRun-Follows, started-Follows}

-- In every state that goroutines reach which call the operations of a store, in any number and
-- order and with their moves interleaved, at most one is in a part that writes the payloads, and then
-- none is in a part that reads them, and the same holds of the forkchoice responses.
pub exclusion :
    (s : Store) (es : List Event) (u : Machine)
    → MachineRun (started s) es u
    → (writing_of payload_hold u.goroutines ≤ 1)
      × (writing_of payload_hold u.goroutines * reading_of payload_hold u.goroutines ≡ 0)
      × (writing_of response_hold u.goroutines ≤ 1)
      × (writing_of response_hold u.goroutines * reading_of response_hold u.goroutines ≡ 0)
exclusion s es u run =
    let (b, history, f) = MachineRun-Follows s run (started-Follows s) in
    let p = IsConsistent-exclusive payload_hold f.payloads.consistent in
    let r = IsConsistent-exclusive response_hold f.responses.consistent in (p.0, p.1, r.0, r.1)
