-- ===== src/RateLimit/Examples.antt =====
-- Five requests a minute for one caller.
use agro.Base.{ℕ, ◌≡◌, refl, true, false, List, [], Text, same, codes, select, delete, count, arith}
use agro.RateLimit.{Window, charge}
use agro.RateLimit.Budget.{IsMap, live, charge-live}

program : Unit {0}
unfolding same select delete count charge
program = tt

abbrev someone : Text
someone = codes "someone"

abbrev quiet : Text
quiet = codes "quiet"

abbrev minute : ℕ
minute = 60

abbrev four_charged : List Window
four_charged = (charge [] someone 4 5 minute 100).0

the_next_four : (charge four_charged someone 4 5 minute 101).1 ≡ false
unfolding program
the_next_four = refl

window_over : (charge four_charged someone 4 5 minute 160).1 ≡ true
unfolding program
window_over = refl

none-IsMap : IsMap []
unfolding count
none-IsMap key = omega arith

four_charged-IsMap : IsMap four_charged
four_charged-IsMap = (charge-live [] someone someone 4 5 minute 100 none-IsMap (omega arith)).2

charge-live_example :
    (let result = charge four_charged someone 4 5 minute 101 in
      (result.1 ≡ false) × (live result.0 101 minute quiet ≡ 0) × IsMap result.0)
unfolding program
charge-live_example =
    charge-live four_charged someone quiet 4 5 minute 101 four_charged-IsMap (omega arith)
