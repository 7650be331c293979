-- ===== src/Version/Tests.antt =====
-- The theorems on versions at 9.4.0.10.
use docker_local.Common.{◌≡◌, refl, ok, err, some, arith}
use docker_local.Common.Text.{codes}
use docker_local.Version.Vrmf.{
  Vrmf, less, greater, parse_vrmf, show, compare_version, compare_vrmf, zero_version,
}
use docker_local.Version.RoundTrip.{IsValid, parse_vrmf-show}

abbrev continuous : Vrmf
continuous = record { version = 9; release = 4; minor = 0; fix = 10 }

abbrev long_term : Vrmf
long_term = record { version = 9; release = 4; minor = 0; fix = 5 }

continuous-IsValid : IsValid continuous
continuous-IsValid = record {
  version_pos = omega arith;
  version_fits = omega arith;
  release_fits = omega arith;
  minor_fits = omega arith;
  fix_fits = omega arith;
}

newer : compare_version (some (codes "9.4.0.10\n")) (codes "9.4.0.5") ≡ ok greater
unfolding compare_version
newer = refl

zero : parse_vrmf (codes "0.1.2.3") ≡ err zero_version
unfolding parse_vrmf
zero = refl

read : parse_vrmf (codes "9.4.0.10") ≡ ok continuous
unfolding parse_vrmf
read = refl

parse_vrmf-show_example : parse_vrmf (show continuous) ≡ ok continuous
parse_vrmf-show_example = parse_vrmf-show continuous continuous-IsValid

abbrev future : Vrmf
future = record { version = 10; release = 0; minor = 0; fix = 0 }

first_before : compare_vrmf long_term continuous ≡ less
unfolding compare_vrmf
first_before = refl

second_before : compare_vrmf continuous future ≡ less
unfolding compare_vrmf
second_before = refl
