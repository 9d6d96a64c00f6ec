-- ===== src/Database/Seconds.antt =====
-- Times that are kept as seconds since 1970.
use swift_go.Prelude.{ℕ, ◌+◌, ◌-◌, ◌*◌, ◌/◌, ◌%◌, ◌^◌, ◌<◌, ◌≡◌, arith, ap}
use swift_go.Io.{Time, second}
use swift_go.Database.{unix, from_unix, unix_epoch}

wrapped :
    (q : ℕ)
    → q < 2 ^ 64
    → ((q + (2 ^ 63 - unix_epoch)) % 2 ^ 64 + (2 ^ 63 + unix_epoch)) % 2 ^ 64 ≡ q
wrapped q h = omega arith

-- What was cut to seconds and read again is the time without its nanoseconds, for every time that Go
-- can hold: the two sums wrap around together.
pub from_unix-unix : (t : Time) → t / second < 2 ^ 64 → from_unix (unix t) 0 ≡ t / second * second
unfolding from_unix unix
from_unix-unix t h = omega (arith, ap (λ s. s * second) (wrapped (t / second) h))
