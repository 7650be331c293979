-- ===== src/Metrics/Update.antt =====
-- update.go: which metrics there are. A list of classes, types or elements is a Go map of the package
-- mqmetric, in the order in which it is walked.
use docker_local.Common.{
  Bool, true, false, ◌||◌, not, Option, none, some, List, [], ◌∷◌, ◌++◌, if◌then◌else◌, foldl,
}
use docker_local.Common.Text.{Text, codes, contains, text_eq}

-- A map of Go with texts as keys, as the list of its entries.
abbrev pub Entries : Type 0 → Type 0
Entries A = List (Text × A)

unfoldable pub lookup : {A : Type 0} → Text → Entries A → Option A
unfolding text_eq
lookup key [] = none
lookup key ((k, a) ∷ rest) = let later = lookup key rest in if text_eq key k then some a else later

-- What the package `mqmetric` has found: an element, with the values that have been published since they were
-- last read. The type above it has a topic, and the class above that a name.
pub record MonElement (Published : Type 0) : Type 0 where
  pub description : Text
  pub is_delta_type : Bool
  pub published : Entries Published

pub record MonType (Published : Type 0) : Type 0 where
  pub type_name : Text
  pub object_topic : Text
  pub elements : List (MonElement Published)

pub record MonClass (Published : Type 0) : Type 0 where
  pub class_name : Text
  pub types : List (MonType Published)

pub record MetricLookup : Type 0 where
  pub lookup_name : Text
  pub lookup_enabled : Bool

-- `metricData`
pub record MetricData (Number : Type 0) : Type 0 where
  pub metric_name : Text
  pub metric_description : Text
  pub object_type : Bool
  pub nha_type : Bool
  pub metric_values : Entries Number
  pub is_delta : Bool

pub data MetricLog : Type 0 where
  duplicate_key not_enabled unexpected_key : Text → MetricLog

-- The variables of the loops of `initialiseMetrics`, and what they log.
pub record Discovered (Number : Type 0) : Type 0 where
  pub metrics : Entries (MetricData Number)
  pub valid_metrics : Bool
  pub logs : List MetricLog

module _ {Published : Type 0} where
  unfoldable pub is_nha : MonClass Published → Bool
  unfolding text_eq
  is_nha metric_class = text_eq metric_class.class_name (codes "NHAREPLICA")

  -- The types that are no metrics of single objects.
  unfoldable pub is_read : MonClass Published → MonType Published → Bool
  unfolding is_nha contains
  is_read metric_class metric_type =
      is_nha metric_class || not (contains metric_type.object_topic (codes "%s"))

  -- `makeKey`
  unfoldable pub make_key : MonClass Published → MonType Published → MonElement Published → Text
  make_key metric_class metric_type metric_element =
      metric_class.class_name
      ++ (b'/' ∷ (metric_type.type_name ++ (b'/' ∷ metric_element.description)))

module _ {Number : Type 0} where
  abbrev pub add_metric :
      Text → MetricData Number → Option (MetricData Number) → Discovered Number → Discovered Number
  add_metric key metric none st = record {
    metrics = (key, metric) ∷ st.metrics;
    valid_metrics = st.valid_metrics;
    logs = st.logs;
  }
  add_metric key metric (some found) st = record {
    metrics = st.metrics;
    valid_metrics = false;
    logs = st.logs ++ duplicate_key key ∷ [];
  }

  abbrev pub initialise_found :
      Text → MetricData Number → Option MetricLookup → Discovered Number → Discovered Number
  initialise_found key metric none st = record {
    metrics = st.metrics;
    valid_metrics = false;
    logs = st.logs ++ unexpected_key key ∷ [];
  }
  initialise_found key metric (some metric_lookup) st =
      if metric_lookup.lookup_enabled
      then add_metric key (record metric { metric_name = metric_lookup.lookup_name })
          (lookup key st.metrics) st
      else record {
        metrics = st.metrics;
        valid_metrics = st.valid_metrics;
        logs = st.logs ++ not_enabled key ∷ [];
      }

module _ {Published Number : Type 0} where
  -- The details of a metric; its name is that of the map.
  abbrev pub new_metric : MonClass Published → MonElement Published → MetricData Number
  new_metric metric_class metric_element = record {
    metric_name = [];
    metric_description = metric_element.description;
    object_type = false;
    nha_type = is_nha metric_class;
    metric_values = [];
    is_delta = metric_element.is_delta_type;
  }

  -- The innermost loop of `initialiseMetrics`, at one element.
  abbrev pub initialise_element :
      Entries MetricLookup
      → MonClass Published
      → MonType Published
      → Discovered Number
      → MonElement Published
      → Discovered Number
  initialise_element names metric_class metric_type st metric_element =
      let key = make_key metric_class metric_type metric_element in
      initialise_found key (new_metric metric_class metric_element) (lookup key names) st

  abbrev pub initialise_type :
      Entries MetricLookup
      → MonClass Published
      → Discovered Number
      → MonType Published
      → Discovered Number
  initialise_type names metric_class st metric_type =
      if is_read metric_class metric_type
      then foldl (initialise_element names metric_class metric_type) st metric_type.elements
      else st

  abbrev pub initialise_class :
      Entries MetricLookup → Discovered Number → MonClass Published → Discovered Number
  initialise_class names st metric_class =
      foldl (initialise_type names metric_class) st metric_class.types

  -- `initialiseMetrics`; its error is that `valid_metrics` is false. `names` is the map of `generateMetricNamesMap`.
  unfoldable pub initialise_metrics :
      Entries MetricLookup → List (MonClass Published) → Discovered Number
  unfolding lookup make_key is_read
  initialise_metrics names classes =
      foldl (initialise_class names) (record { metrics = []; valid_metrics = true; logs = [] })
        classes
