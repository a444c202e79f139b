-- ===== src/Metrics.antt =====
-- internal/metrics/metrics.go: the counters of started and finished operations. A gauge is the number
-- of its increments and of its decrements. There is a registerer: without one nothing is counted.
use lets_proxy.Base.{ℕ, suc, Option, none, some, Error}

pub record Counters : Type 0 where
  pub total : ℕ
  pub finished_ok : ℕ
  pub finished_err : ℕ
  pub inflight_inc : ℕ
  pub inflight_dec : ℕ

-- `ToefCounters`: the new counters, and the two functions that it returns.
unfoldable pub toef_counters : Counters
toef_counters = record {
  total = 0;
  finished_ok = 0;
  finished_err = 0;
  inflight_inc = 0;
  inflight_dec = 0;
}

unfoldable pub start : Counters → Counters
start c = record c { total = suc c.total; inflight_inc = suc c.inflight_inc }

unfoldable pub finish : Counters → Option Error → Counters
finish c none = record c { finished_ok = suc c.finished_ok; inflight_dec = suc c.inflight_dec }
finish c (some e) = record c {
  finished_err = suc c.finished_err;
  inflight_dec = suc c.inflight_dec;
}
