-- ===== src/Examples/Settings.antt =====
-- The configuration file.
use x2ssh.Base.{◌≡◌, refl, codes}
use x2ssh.Base.{ok, err, bad_max_attempts}
use x2ssh.Config.{text, int, inf, count, deserialize}

deserialize_tests :
    (deserialize (text (codes "inf")) ≡ ok inf)
    × (deserialize (text (codes "INF")) ≡ ok inf)
    × (deserialize (int 5) ≡ ok (count 5))
    × (deserialize (int 0) ≡ ok (count 0))
    × (deserialize (text (codes "invalid")) ≡ err (bad_max_attempts (codes "invalid")))
unfolding deserialize
deserialize_tests = (refl, refl, refl, refl, refl)
