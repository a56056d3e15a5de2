-- ===== src/Fit/Examples.antt =====
-- src/fit.rs: the gate on an empty store.
use subnext.Prelude.{◌≡◌, refl}
use subnext.Graph.State.{new}
use subnext.Fit.{assess, bypass, plan}

fits : assess new 100 100 ≡ bypass
unfolding assess
fits = refl

too_long : assess new 101 100 ≡ plan
unfolding assess
too_long = refl
