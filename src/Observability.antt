-- ===== src/Observability.antt =====
-- observability.go, observability/promadapter/promadapter.go, and where worker.go emits metrics. The
-- collectors are Prometheus's: a call on one is a value.
pub mod Emitted
pub mod Readings
pub mod Shares
pub mod Runs
pub mod Balance
pub mod Adapters
use mkq.Prelude.{
  ℕ, Bool, true, false, ◌&&◌, ◌||◌, List, [], ◌∷◌, ◌++◌, Bytes, codes, StringMap, get, put,
  eq_bytes, ℤ, pos, negsuc, if◌then◌else◌,
}

-- The names of the metrics.
abbrev pub metric_jobs_added_total : Bytes
metric_jobs_added_total = codes "mkq_jobs_added_total"

abbrev pub metric_jobs_processed_total : Bytes
metric_jobs_processed_total = codes "mkq_jobs_processed_total"

abbrev pub metric_handler_duration_seconds : Bytes
metric_handler_duration_seconds = codes "mkq_handler_duration_seconds"

abbrev pub metric_dispatch_wait_seconds : Bytes
metric_dispatch_wait_seconds = codes "mkq_dispatch_wait_seconds"

abbrev pub metric_jobs_in_flight : Bytes
metric_jobs_in_flight = codes "mkq_jobs_in_flight"

-- The keys of the attributes.
abbrev pub attr_queue : Bytes
attr_queue = codes "mkq.queue"

abbrev pub attr_job_name : Bytes
attr_job_name = codes "mkq.job.name"

abbrev pub attr_process_status : Bytes
attr_process_status = codes "mkq.process.status"

abbrev pub Attrs : Type 0
Attrs = List (Bytes × Bytes)

-- A call of the `Metrics` interface; the value of a histogram is a float64.
pub data Emission : Type 0 where
  counter_add : Bytes → ℤ → Attrs → Emission
  histogram_observe : Bytes → ℕ → Attrs → Emission
  gauge_add : Bytes → ℤ → Attrs → Emission

-- The fields of the adapter.
pub data Collector : Type 0 where
  jobs_added jobs_processed handler_dur dispatch_wait jobs_in_flight : Collector

-- `With(labels).Add(delta)` and `With(labels).Observe(value)`.
pub data PromCall : Type 0 where
  add : Collector → Attrs → ℤ → PromCall
  observe : Collector → Attrs → ℕ → PromCall

-- The last attribute of a key wins.
unfoldable pub attrs_to_labels : Attrs → StringMap → StringMap
attrs_to_labels [] out = out
attrs_to_labels ((k, v) ∷ attrs) out = attrs_to_labels attrs (put out k v)

abbrev pub queue_label : StringMap → Bytes × Bytes
queue_label labels = (codes "queue", get labels attr_queue)

abbrev pub name_label : StringMap → Bytes × Bytes
name_label labels = (codes "name", get labels attr_job_name)

abbrev pub status_label : StringMap → Bytes × Bytes
status_label labels = (codes "status", get labels attr_process_status)

unfoldable pub prom_counter_add : Bytes → ℤ → StringMap → List PromCall
prom_counter_add name delta labels =
    if eq_bytes name metric_jobs_added_total
    then add jobs_added (queue_label labels ∷ name_label labels ∷ []) delta ∷ []
    else if eq_bytes name metric_jobs_processed_total
    then add jobs_processed (queue_label labels ∷ name_label labels ∷ status_label labels ∷ [])
        delta
      ∷ []
    else []

unfoldable pub prom_histogram_observe : Bytes → ℕ → StringMap → List PromCall
prom_histogram_observe name value labels =
    if eq_bytes name metric_handler_duration_seconds
    then observe handler_dur (queue_label labels ∷ name_label labels ∷ []) value ∷ []
    else if eq_bytes name metric_dispatch_wait_seconds
    then observe dispatch_wait (queue_label labels ∷ []) value ∷ []
    else []

unfoldable pub prom_gauge_add : Bytes → ℤ → StringMap → List PromCall
prom_gauge_add name delta labels =
    if eq_bytes name metric_jobs_in_flight
    then add jobs_in_flight (queue_label labels ∷ []) delta ∷ []
    else []

-- What the adapter makes of an emission; one of an unknown name is dropped.
unfoldable pub prom : Emission → List PromCall
unfolding prom_counter_add prom_histogram_observe prom_gauge_add attrs_to_labels
prom (counter_add name delta attrs) = prom_counter_add name delta (attrs_to_labels attrs [])
prom (histogram_observe name value attrs) =
    prom_histogram_observe name value (attrs_to_labels attrs [])
prom (gauge_add name delta attrs) = prom_gauge_add name delta (attrs_to_labels attrs [])

unfoldable pub prom_all : List Emission → List PromCall
unfolding prom
prom_all [] = []
prom_all (e ∷ es) = prom e ++ prom_all es

-- `noopMetrics`.
unfoldable pub noop : Emission → List PromCall
noop e = []
