-- ===== src/Metrics/Tests.antt =====
-- The theorems on the metrics at one class with a type that is read and one that is not.
use docker_local.Common.{ℕ, ◌≡◌, refl, true, false, List, [], ◌∷◌}
use docker_local.Common.Text.{codes}
use docker_local.Metrics.Update.{
  Entries, MonElement, MonType, MonClass, MetricLookup, Discovered, initialise_metrics,
}
use docker_local.Metrics.Discovery.{IsDiscovered, initialise_metrics-IsDiscovered}

abbrev bytes : MonElement ℕ
bytes = record {
  description = codes "bytes";
  is_delta_type = true;
  published = (codes "qmgr", 5) ∷ [];
}

abbrev log_type : MonType ℕ
log_type = record { type_name = codes "Log"; object_topic = codes "topic"; elements = bytes ∷ [] }

abbrev queue_type : MonType ℕ
queue_type = record { type_name = codes "PUT"; object_topic = codes "a/%s"; elements = bytes ∷ [] }

abbrev classes : List (MonClass ℕ)
classes = record { class_name = codes "DISK"; types = queue_type ∷ log_type ∷ [] } ∷ []

abbrev names : Entries MetricLookup
names =
    (codes "DISK/Log/bytes", record { lookup_name = codes "log_bytes"; lookup_enabled = true }) ∷ []

abbrev found : Discovered ℕ
found = initialise_metrics names classes

one_metric : found.metrics ≡ (
    (
      codes "DISK/Log/bytes",
      record {
        metric_name = codes "log_bytes";
        metric_description = codes "bytes";
        object_type = false;
        nha_type = false;
        metric_values = [];
        is_delta = true;
      },
    )
    ∷ [])
unfolding initialise_metrics
one_metric = refl

initialise_metrics-IsDiscovered_example : IsDiscovered names found
initialise_metrics-IsDiscovered_example = initialise_metrics-IsDiscovered names classes
