-- ===== src/Tests/Retry.antt =====
-- Classification, the decision matrix and the backoff at concrete inputs.
use zk_ai.Prelude.{◌*◌, ◌≤◌, ◌≡◌, ◌⊎◌, false, none, some}
use zk_ai.Prelude.Round.{second}
use zk_ai.Errors.{Exn, raise}
use zk_ai.Retry.Classifier.{classify}
use zk_ai.Retry.Actions.{Becomes, classify-IsActionable}
use zk_ai.Retry.Backoff.{compute_delay, delay_for_error}
use zk_ai.Retry.Delays.{delay_bounds}
use zk_ai.Tests.Data.{classifier, lowest, backoff}

classify-IsActionable_example :
    (Exn.other "ValueError" "boom" ≡ Exn.cancelled)
      × (classify classifier (Exn.other "ValueError" "boom") none ≡ raise Exn.cancelled)
    ⊎ Becomes false (classify classifier (Exn.other "ValueError" "boom") none)
classify-IsActionable_example =
    classify-IsActionable classifier (Exn.other "ValueError" "boom") none

delay_bounds_example :
    (compute_delay backoff 9 lowest ≤ 30 * second)
    × (delay_for_error backoff 9 (some (500 * second)) lowest ≤ 120 * second)
delay_bounds_example = delay_bounds backoff 9 (some (500 * second)) lowest
