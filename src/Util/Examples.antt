-- ===== src/Util/Examples.antt =====
-- Runs of src/Util.c.
use rawr.Common.{ℕ, ◌*◌, ◌^◌, ◌≤◌, ◌<◌, ◌≡◌, refl, arith}
use rawr.Util.{next_power_of2}
use rawr.Util.PowerOf2.{next_power_of2-least}

-- Ten frames of 20 ms at 48 kHz.
frames_round_up : next_power_of2 9600 ≡ 16384
unfolding next_power_of2
frames_round_up = refl

power_stays : next_power_of2 4096 ≡ 4096
unfolding next_power_of2
power_stays = refl

next_power_of2-least_example :
    (k : ℕ) × (k ≤ 31) × (next_power_of2 9600 ≡ 2 ^ k) × (9600 ≤ 2 ^ k) × (2 ^ k < 2 * 9600)
next_power_of2-least_example = next_power_of2-least 9600 (omega arith) (omega arith)
