-- ===== src/L2/Tests.antt =====
-- A full stripe of the second level with two entries: witnesses.
use walde.Base.{◌≡◌, some, [], arith}
use walde.Types.{Key}
use walde.Queue.{DemotionItem}
use walde.L2.{L2Stripe, empty_stripe, put_in, remove_in}
use walde.L2.Recency.{without, insert_latest}
use walde.L2.Stripes.{IsL2, recent, empty_stripe-IsL2, remove_in-without}
use walde.L2.Insert.{put_in-latest}

abbrev item : Key → DemotionItem
item k = record { key = k; value = "1"; frequency = 3 }

-- The stripe after two insertions into an empty one.
abbrev one :
    (s : L2Stripe) × (put_in 2 (item "a") empty_stripe ≡ some s)
    × (recent s ≡ insert_latest 2 "a" "1" [])
    × IsL2 2 s
one = put_in-latest (empty_stripe-IsL2 2) (item "a") (omega arith)

abbrev two :
    (s : L2Stripe) × (put_in 2 (item "b") one.0 ≡ some s)
    × (recent s ≡ insert_latest 2 "b" "1" (recent one.0))
    × IsL2 2 s
two = put_in-latest one.3 (item "b") (omega arith)

put_in-latest_example :
    (s : L2Stripe) × (put_in 2 (item "c") two.0 ≡ some s)
    × (recent s ≡ insert_latest 2 "c" "1" (recent two.0))
    × IsL2 2 s
put_in-latest_example = put_in-latest two.3 (item "c") (omega arith)

remove_in-without_example :
    (s : L2Stripe) × (remove_in "b" two.0 ≡ some s)
    × (recent s ≡ without "b" (recent two.0))
    × IsL2 2 s
remove_in-without_example = remove_in-without two.3 "b"
