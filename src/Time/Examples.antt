-- ===== src/Time/Examples.antt =====
-- The theorem on dates at a concrete one: the last second of February 29, 2016.
use infinity_os.Base.{◌≡◌, refl, some}
use infinity_os.Time.{time_to_unix}

leap_second : time_to_unix 2016 2 29 23 59 59 ≡ some 1456790399000000000
unfolding time_to_unix
leap_second = refl
