-- ===== src/Monitoring/Performance.antt =====
-- src/monitoring/performance.service.ts. Durations are in hundredths of a millisecond, to which the summary
-- rounds; its averages and rates are in hundredths too. `sort` is that of numbers.
pub mod Percentiles
use atraport_api.Prelude.{
  ℕ, zero, suc, ◌+◌, ◌-◌, ◌*◌, ◌/◌, Bool, List, [], ◌∷◌, ◌++◌, ltb, leb, length, max, min, sum,
  round_div, if◌then◌else◌,
}

pub record Performance : Type 0 where
  pub latencies : List ℕ
  pub total_requests : ℕ
  pub error_requests : ℕ
  pub active_requests : ℕ
  pub request_timestamps : List ℕ

pub record PerformanceSummary : Type 0 where
  pub rps : ℕ
  pub total_requests : ℕ
  pub error_count : ℕ
  pub error_rate_percentage : ℕ
  pub p50 : ℕ
  pub p90 : ℕ
  pub p95 : ℕ
  pub p99 : ℕ
  pub avg : ℕ
  pub least : ℕ
  pub most : ℕ
  pub active_requests : ℕ

abbrev pub max_latencies : ℕ
max_latencies = 5000

abbrev pub initial_performance : Performance
initial_performance = record {
  latencies = [];
  total_requests = 0;
  error_requests = 0;
  active_requests = 0;
  request_timestamps = [];
}

-- `xs.shift()`
abbrev pub shift : List ℕ → List ℕ
shift [] = []
shift (x ∷ xs) = xs

unfoldable pub push_bounded : ℕ → List ℕ → List ℕ
push_bounded x xs =
    let ys = xs ++ (x ∷ []) in if ltb max_latencies (length ys) then shift ys else ys

-- The first ones that are older than a minute are dropped.
unfoldable pub drop_old : ℕ → List ℕ → List ℕ
drop_old now [] = []
drop_old now (t ∷ ts) = let rest = drop_old now ts in if ltb (t + 60000) now then rest else t ∷ ts

unfoldable pub record_request : ℕ → ℕ → ℕ → Performance → Performance
record_request duration status now p = record p {
  total_requests = p.total_requests + 1;
  error_requests = if leb 400 status then p.error_requests + 1 else p.error_requests;
  latencies = push_bounded duration p.latencies;
  request_timestamps = drop_old now (p.request_timestamps ++ (now ∷ []));
}

unfoldable pub increment_active_requests : Performance → Performance
increment_active_requests p = record p { active_requests = p.active_requests + 1 }

unfoldable pub decrement_active_requests : Performance → Performance
decrement_active_requests p = record p { active_requests = p.active_requests - 1 }

unfoldable pub insert : ℕ → List ℕ → List ℕ
insert x [] = x ∷ []
insert x (y ∷ ys) = let later = insert x ys in if leb x y then x ∷ (y ∷ ys) else y ∷ later

unfoldable pub sort : List ℕ → List ℕ
sort [] = []
sort (x ∷ xs) = insert x (sort xs)

-- `xs[i]`, which is read in range.
unfoldable pub nth : ℕ → List ℕ → ℕ
nth i [] = 0
nth zero (x ∷ xs) = x
nth (suc i) (x ∷ xs) = nth i xs

-- `Math.ceil((percentile / 100) * length) - 1`, which is in range.
unfoldable pub percentile_index : ℕ → ℕ → ℕ
percentile_index count percentile = min ((percentile * count + 99) / 100 - 1) (count - 1)

unfoldable pub get_percentile : List ℕ → ℕ → ℕ
get_percentile sorted percentile = nth (percentile_index (length sorted) percentile) sorted

abbrev pub average : List ℕ → ℕ → ℕ
average sorted zero = 0
average sorted (suc n) = round_div (sum sorted) (suc n)

abbrev pub error_rate : ℕ → ℕ → ℕ
error_rate errors zero = 0
error_rate errors (suc n) = round_div (errors * 10000) (suc n)

unfoldable pub get_summary : Performance → PerformanceSummary
get_summary p =
    let sorted = sort p.latencies in
    record {
      rps = round_div (length p.request_timestamps * 100) 60;
      total_requests = p.total_requests;
      error_count = p.error_requests;
      error_rate_percentage = error_rate p.error_requests p.total_requests;
      p50 = get_percentile sorted 50;
      p90 = get_percentile sorted 90;
      p95 = get_percentile sorted 95;
      p99 = get_percentile sorted 99;
      avg = average sorted (length sorted);
      least = nth 0 sorted;
      most = nth (length sorted - 1) sorted;
      active_requests = p.active_requests;
    }
