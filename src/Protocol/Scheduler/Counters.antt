-- ===== src/Protocol/Scheduler/Counters.antt =====
-- The counters of packages/protocol/src/scheduler.ts: one bucket for all calls, and one for each
-- subsystem and method.
use evidra_protocol.Base.{ℕ, ◌+◌, Option, List, [], ◌∷◌, Text, lit, same, or_default, if◌then◌else◌}

-- `RpcCallMeta`
pub record Meta : Type 0 where
  pub subsystem : Option Text
  pub method : Option Text

-- `RpcMetricBucket`
pub record Bucket : Type 0 where
  pub total : ℕ
  pub success : ℕ
  pub rate_limited : ℕ
  pub server_errors : ℕ
  pub retries : ℕ
  pub suppressed : ℕ
  pub hard_quota : ℕ

-- `keyof RpcMetricBucket`
pub data Metric : Type 0 where
  total success rate_limited server_errors retries suppressed hard_quota : Metric

abbrev pub empty_bucket : Bucket
empty_bucket = record {
  total = 0;
  success = 0;
  rate_limited = 0;
  server_errors = 0;
  retries = 0;
  suppressed = 0;
  hard_quota = 0;
}

abbrev pub read : Metric → Bucket → ℕ
read total b = b.total
read success b = b.success
read rate_limited b = b.rate_limited
read server_errors b = b.server_errors
read retries b = b.retries
read suppressed b = b.suppressed
read hard_quota b = b.hard_quota

-- `bucket[field] += 1`
abbrev pub bump : Metric → Bucket → Bucket
bump total b = record b { total = b.total + 1 }
bump success b = record b { success = b.success + 1 }
bump rate_limited b = record b { rate_limited = b.rate_limited + 1 }
bump server_errors b = record b { server_errors = b.server_errors + 1 }
bump retries b = record b { retries = b.retries + 1 }
bump suppressed b = record b { suppressed = b.suppressed + 1 }
bump hard_quota b = record b { hard_quota = b.hard_quota + 1 }

abbrev pub BucketMap : Type 0
BucketMap = List (Text × Bucket)

-- `map.set(key, bumped map.get(key) ?? emptyBucket())`, in insertion order
unfoldable pub bump_key : Metric → Text → BucketMap → BucketMap
bump_key field key [] = (key, bump field empty_bucket) ∷ []
bump_key field key ((k, b) ∷ m) =
    if same k key then (k, bump field b) ∷ m else (k, b) ∷ bump_key field key m

pub record Metrics : Type 0 where
  pub totals : Bucket
  pub by_subsystem : BucketMap
  pub by_method : BucketMap

abbrev pub no_metrics : Metrics
no_metrics = record { totals = empty_bucket; by_subsystem = []; by_method = [] }

-- `record`
unfoldable pub count_metric : Meta → Metric → Metrics → Metrics
unfolding bump_key
count_metric m field x = record {
  totals = bump field x.totals;
  by_subsystem = bump_key field (or_default m.subsystem (lit "unspecified")) x.by_subsystem;
  by_method = bump_key field (or_default m.method (lit "unknown")) x.by_method;
}
