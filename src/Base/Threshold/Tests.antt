-- ===== src/Base/Threshold/Tests.antt =====
-- Runs of base/threshold.go.
use mitum.Prelude.{◌≡◌, refl}
use mitum.Base.Threshold.{threshold_of, percent, default_threshold, number_of_faulty_nodes}

three_of_four : threshold_of default_threshold 4 ≡ 3
unfolding threshold_of default_threshold
three_of_four = refl

of_hundred : threshold_of default_threshold 100 ≡ 67
unfolding threshold_of default_threshold
of_hundred = refl

-- 55 percent of 100 is 55, and the float64 product is a little more.
one_too_many : threshold_of (percent 55) 100 ≡ 56
unfolding threshold_of percent
one_too_many = refl

faulty_of_four : number_of_faulty_nodes 4 default_threshold ≡ 1
unfolding number_of_faulty_nodes default_threshold
faulty_of_four = refl
