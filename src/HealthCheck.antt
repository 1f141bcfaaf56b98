-- ===== src/HealthCheck.antt =====
-- agent-rust/src/healthcheck/mod.rs: the self-check of the agent, for Linux. What the system and the
-- resolver answer are inputs; the numbers' digits are a library's.
mod Summary
use live_cdn.Common.{
  ℕ, ◌*◌, ◌/◌, ◌-◌, ◌+◌, ◌^◌, Bool, true, false, ◌||◌, ◌&&◌, not, Option, none, some, List, [], ◌∷◌,
  ◌++◌, ltb, leb, ◌==◌, if◌then◌else◌, codes, is_nil, starts_with, trim, trim_start_matches, lines,
  split_by, split_whitespace, parse_below,
}
use live_cdn.Cascade.{ℤ, pos, negsuc}

pub record HealthReport : Type 0 where
  pub disk_free_mb : ℕ
  pub disk_warning : Bool
  pub clock_skew_ms : ℤ
  pub clock_warning : Bool
  pub dns_resolvable : Bool
  pub memory_pressure : Bool
  pub timestamp : ℕ

unfoldable pub has_issues : HealthReport → Bool
has_issues r = r.disk_warning || (r.clock_warning || (not r.dns_resolvable || r.memory_pressure))

abbrev pub said : Bool → List ℕ → List (List ℕ)
said b issue = if b then issue ∷ [] else []

unfoldable pub issues_summary : (ℕ → List ℕ) → (ℤ → List ℕ) → HealthReport → List (List ℕ)
issues_summary digits digits_i64 r =
    said r.disk_warning (codes "磁盘空间不足: " ++ (digits r.disk_free_mb ++ codes "MB"))
    ++ (said r.clock_warning (codes "时钟漂移: " ++ (digits_i64 r.clock_skew_ms ++ codes "ms"))
        ++ (said (not r.dns_resolvable) (codes "DNS 解析失败")
            ++ said r.memory_pressure (codes "内存压力高")))

-- `line.split_whitespace().nth(1)`
abbrev second_word : List (List ℕ) → Option (List ℕ)
second_word [] = none
second_word (a ∷ []) = none
second_word (a ∷ b ∷ rest) = some b

abbrev u64_of : Option (List ℕ) → Option ℕ
u64_of none = none
u64_of (some s) = parse_below (2 ^ 64) s

abbrev megabytes_or : Option ℕ → ℕ → ℕ
megabytes_or none later = later
megabytes_or (some kb) later = kb / 1024

-- The first line whose value can be read.
unfoldable pub available_mb : List (List ℕ) → ℕ
available_mb [] = 2 ^ 64 - 1
available_mb (line ∷ ls) =
    let later = available_mb ls in
    if starts_with line (codes "MemAvailable:")
    then megabytes_or (u64_of (second_word (split_whitespace line))) later
    else later

abbrev from_meminfo : Option (List ℕ) → ℕ
from_meminfo none = 2 ^ 64 - 1
from_meminfo (some content) = available_mb (lines content)

-- With what `statvfs` answers in megabytes, and the text of /proc/meminfo.
abbrev pub check_disk_free : Option ℕ → Option (List ℕ) → ℕ
check_disk_free none meminfo = from_meminfo meminfo
check_disk_free (some mb) meminfo = mb

abbrev check_clock_skew : ℤ
check_clock_skew = pos 0

abbrev pub first_part : List (List ℕ) → List ℕ
first_part [] = []
first_part (p ∷ ps) = p

unfoldable pub hostname_of : List ℕ → List ℕ
hostname_of host = first_part (
    split_by (λ c. c == 58)
      (trim_start_matches (trim_start_matches host (codes "http://")) (codes "https://")))

-- With the resolver.
unfoldable pub check_dns : (List ℕ → Bool) → List ℕ → Bool
check_dns resolves host =
    if is_nil host
    then true
    else if is_nil (hostname_of host)
    then true
    else resolves (hostname_of host ++ codes ":80")

abbrev value_or_0 : Option (List ℕ) → ℕ → ℕ
value_or_0 none old = old
value_or_0 (some s) old = elim (parse_below (2 ^ 64) s) [ none ↦ 0 | some n ↦ n ]

-- The total and the available memory, the last line of each kind.
unfoldable pub memory_of : List (List ℕ) → ℕ → ℕ → ℕ × ℕ
memory_of [] total available = (total, available)
memory_of (line ∷ ls) total available =
    let word = second_word (split_whitespace line) in
    let is_total = starts_with line (codes "MemTotal:") in
    let is_available = not is_total && starts_with line (codes "MemAvailable:") in
    memory_of ls (if is_total then value_or_0 word total else total)
      (if is_available then value_or_0 word available else available)

abbrev scarce : ℕ × ℕ → Bool
scarce (total, available) = ltb 0 total && ltb (available * 100 / total) 10

abbrev meminfo_pressure : Option (List ℕ) → Bool
meminfo_pressure none = false
meminfo_pressure (some content) = scarce (memory_of (lines content) 0 0)

abbrev score_pressure : Option ℕ → Option (List ℕ) → Bool
score_pressure none meminfo = meminfo_pressure meminfo
score_pressure (some score) meminfo = leb 800 score

abbrev score_of : Option (List ℕ) → Option ℕ
score_of none = none
score_of (some content) = parse_below (2 ^ 32) (trim content)

abbrev pub check_memory_pressure : Option (List ℕ) → Option (List ℕ) → Bool
check_memory_pressure oom_score meminfo = score_pressure (score_of oom_score) meminfo

abbrev absolute : ℤ → ℕ
absolute (pos n) = n
absolute (negsuc n) = n + 1

-- What the system answers during a check.
pub record Readings : Type 0 where
  pub statvfs_mb : Option ℕ
  pub meminfo : Option (List ℕ)
  pub oom_score : Option (List ℕ)
  pub resolves : List ℕ → Bool
  pub now : ℕ

unfoldable pub run_self_check : Readings → List ℕ → HealthReport
run_self_check r controller_host =
    let disk_free = check_disk_free r.statvfs_mb r.meminfo in
    record {
      disk_free_mb = disk_free;
      disk_warning = ltb disk_free 100;
      clock_skew_ms = check_clock_skew;
      clock_warning = ltb 5000 (absolute check_clock_skew);
      dns_resolvable = check_dns r.resolves controller_host;
      memory_pressure = check_memory_pressure r.oom_score r.meminfo;
      timestamp = r.now;
    }
