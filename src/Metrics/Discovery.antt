-- ===== src/Metrics/Discovery.antt =====
-- What `initialiseMetrics` finds.
use docker_local.Common.{
  ◌≡◌, refl, sym, ap, ◌∙◌, Bool, true, false, ◌&&◌, not, Option, none, some, List, [], ◌∷◌,
  foldl_keeps, any, any-append, arith, Bool-cases, inl, inr,
}
use docker_local.Common.Text.{Text}
use docker_local.Metrics.Update.{
  Entries, lookup, MonType, MonClass, MetricLookup, MetricData, MetricLog, duplicate_key,
  not_enabled, unexpected_key, Discovered, is_read, make_key, add_metric, initialise_found,
  new_metric, initialise_element, initialise_type, initialise_class, initialise_metrics,
}

-- The logs of what is wrong. A metric that is not enabled is not.
abbrev pub is_problem : MetricLog → Bool
is_problem (duplicate_key key) = true
is_problem (not_enabled key) = false
is_problem (unexpected_key key) = true

abbrev pub is_on : Option MetricLookup → Bool
is_on none = false
is_on (some found) = found.lookup_enabled

-- No key twice.
abbrev pub absent : {A : Type 0} → Option A → Bool
absent none = true
absent (some a) = false

abbrev pub distinct : {A : Type 0} → Entries A → Bool
distinct [] = true
distinct ((key, a) ∷ rest) = absent (lookup key rest) && distinct rest

abbrev pub all_on : {A : Type 0} → Entries MetricLookup → Entries A → Bool
all_on names [] = true
all_on names ((key, a) ∷ rest) = is_on (lookup key names) && all_on names rest

module _ {Number : Type 0} (names : Entries MetricLookup) where
  -- No key twice, each with an enabled name, and an error just if something wrong has been logged.
  pub record IsDiscovered (st : Discovered Number) : Type 0 where
    pub keys_distinct : distinct st.metrics ≡ true
    pub keys_on : all_on names st.metrics ≡ true
    pub problems : st.valid_metrics ≡ not (any is_problem st.logs)

  add_metric-IsDiscovered :
      (key : Text) (metric : MetricData Number) (o : Option (MetricData Number))
      (st : Discovered Number)
      → o ≡ lookup key st.metrics
      → is_on (lookup key names) ≡ true
      → IsDiscovered st
      → IsDiscovered (add_metric key metric o st)
  add_metric-IsDiscovered key metric none st e on h = record {
    keys_distinct = rw (← e) h.keys_distinct;
    keys_on = rw on h.keys_on;
    problems = h.problems;
  }
  add_metric-IsDiscovered key metric (some found) st e on h = record {
    keys_distinct = h.keys_distinct;
    keys_on = h.keys_on;
    problems = rw (any-append is_problem st.logs (duplicate_key key ∷ [])) (ground arith);
  }

  initialise_found-IsDiscovered :
      (key : Text) (metric : MetricData Number) (o : Option MetricLookup) (st : Discovered Number)
      → o ≡ lookup key names
      → IsDiscovered st
      → IsDiscovered (initialise_found key metric o st)
  initialise_found-IsDiscovered key metric none st e h = record {
    keys_distinct = h.keys_distinct;
    keys_on = h.keys_on;
    problems = rw (any-append is_problem st.logs (unexpected_key key ∷ [])) (ground arith);
  }
  initialise_found-IsDiscovered key metric (some found) st e h =
      elim (Bool-cases found.lookup_enabled) [
        | inl on ↦ rw on (
            add_metric-IsDiscovered key (record metric { metric_name = found.lookup_name })
              (lookup key st.metrics) st refl (ap is_on (sym e) ∙ on) h)
        | inr off ↦ rw off (record {
          keys_distinct = h.keys_distinct;
          keys_on = h.keys_on;
          problems =
              rw (any-append is_problem st.logs (not_enabled key ∷ []), h.problems) (ground arith);
        })
      ]

  initialise_type-IsDiscovered :
      {Published : Type 0} (c : MonClass Published) (st : Discovered Number) (t : MonType Published)
      → IsDiscovered st
      → IsDiscovered (initialise_type names c st t)
  initialise_type-IsDiscovered c st t h = elim (Bool-cases (is_read c t)) [
    | inl e ↦ rw e (
        foldl_keeps IsDiscovered (initialise_element names c t)
          (λ s el.
            initialise_found-IsDiscovered (make_key c t el) (new_metric c el)
              (lookup (make_key c t el) names) s refl)
          st t.elements h)
    | inr e ↦ rw e h
  ]

  -- `initialiseMetrics` finds no key twice and only keys with an enabled name, and it returns an error just if it
  -- has logged an unexpected or a duplicate key.
  pub initialise_metrics-IsDiscovered :
      {Published : Type 0} (classes : List (MonClass Published))
      → IsDiscovered (initialise_metrics names classes)
  unfolding initialise_metrics
  initialise_metrics-IsDiscovered classes =
      foldl_keeps IsDiscovered (initialise_class names)
        (λ s c.
          foldl_keeps IsDiscovered (initialise_type names c) (initialise_type-IsDiscovered c) s
            c.types)
        (record { metrics = []; valid_metrics = true; logs = [] }) classes
        (record { keys_distinct = refl; keys_on = refl; problems = refl })
