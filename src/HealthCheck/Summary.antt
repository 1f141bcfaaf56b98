-- ===== src/HealthCheck/Summary.antt =====
-- The issues of a report and their summary, and checks of concrete controllers.
use live_cdn.Common.{
  ℕ, ◌≡◌, refl, Bool, true, false, ◌||◌, not, List, ◌++◌, is_nil, codes, strip_starts, split_by,
}
use live_cdn.Cascade.{ℤ}
use live_cdn.HealthCheck.{
  HealthReport, Readings, has_issues, issues_summary, hostname_of, run_self_check, said,
}

-- A report has issues exactly when its summary says some.
has_issues-issues_summary :
    (digits : ℕ → List ℕ) (digits_i64 : ℤ → List ℕ) (r : HealthReport)
    → has_issues r ≡ not (is_nil (issues_summary digits digits_i64 r))
unfolding has_issues issues_summary
has_issues-issues_summary digits digits_i64 r =
    any r.disk_warning r.clock_warning r.dns_resolvable r.memory_pressure _ _ _ _
  where
    any :
        (a b c d : Bool) (w x y z : List ℕ)
        → (a || (b || (not c || d)))
          ≡ not (is_nil (said a w ++ (said b x ++ (said (not c) y ++ said d z))))
    any true b c d w x y z = refl
    any false true c d w x y z = refl
    any false false false d w x y z = refl
    any false false true true w x y z = refl
    any false false true false w x y z = refl

-- The clock is never found to be off.
run_self_check-clock_warning :
    (r : Readings) (host : List ℕ) → (run_self_check r host).clock_warning ≡ false
unfolding run_self_check
run_self_check-clock_warning r host = refl

-- A path behind the host is taken for a part of its name.
hostnames :
    (hostname_of (codes "http://controller:8080") ≡ codes "controller")
    × (hostname_of (codes "https://cdn.example.com/api") ≡ codes "cdn.example.com/api")
unfolding hostname_of strip_starts split_by
hostnames = (refl, refl)
