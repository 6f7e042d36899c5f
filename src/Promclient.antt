-- ===== src/Promclient.antt =====
-- pkg/promclient/promclient.go: the queries and what the program makes of their samples. The API's
-- answer to an instant query is a vector, so the assertion `result.(model.Vector)` is left out, as
-- are the warnings, which are only logged, and the timestamps of GetCurrentCpuDiff, which nothing reads.
pub mod Samples
use Prim.Native.String.{◌++◌ as append_text}
use target_exporter.Prelude.{
  ℕ, ◌-◌, Bool, String, Option, none, some, List, [], ◌∷◌, ◌++◌, Dict, lookup, insert, length,
}
use target_exporter.Prelude.Int.{ℤ}
use target_exporter.Float.{Float64, num}
use target_exporter.Outcome.{Outcome, ok, err, panic, Action, ◌>>=◌, lift, bind_outcome}
use target_exporter.World.{Sample, Series, Time, Event, query, query_range, Env, St, call}

pub record NodeCpuUsage (F : Type 0) : Type 0 where
  pub node_name : String
  pub usages : List F

pub record NodeInstantCpuUsage (F : Type 0) : Type 0 where
  pub node_name : String
  pub usage : F

-- `string(model.LabelSet(entry.Metric)[name])`: a missing label is the empty text.
abbrev pub text_or_empty : Option String → String
text_or_empty none = ""
text_or_empty (some t) = t

abbrev pub label : String → Sample → String
label name entry = text_or_empty (lookup name entry.labels)

module _ {F : Type 0} (parse : String → Outcome F) where
  -- The loop of GetCurrentCpuDiff, with the list built so far.
  unfoldable pub diffs_from : List (NodeCpuUsage F) → List Sample → Outcome (List (NodeCpuUsage F))
  diffs_from acc [] = ok acc
  diffs_from acc (entry ∷ rest) = bind_outcome (parse entry.text) λ usage.
      diffs_from (acc ++ (record { node_name = label "instance" entry; usages = usage ∷ [] } ∷ []))
        rest

  -- The loop of GetCurrentEnergyConsumption.
  unfoldable pub energies_from : Dict F → List Sample → Outcome (Dict F)
  energies_from acc [] = ok acc
  energies_from acc (entry ∷ rest) =
      bind_outcome (parse entry.text)
        λ energy. energies_from (insert (label "node_label" entry) energy acc) rest

  -- The loop of GetAvgCpuUsages.
  unfoldable pub averages_from :
      List (NodeInstantCpuUsage F) → List Sample → Outcome (List (NodeInstantCpuUsage F))
  averages_from acc [] = ok acc
  averages_from acc (entry ∷ rest) = bind_outcome (parse entry.text) λ usage.
      averages_from (acc ++ (record { node_name = label "instance" entry; usage = usage } ∷ []))
        rest

  -- `strconv.ParseFloat(result.(model.Vector)[0].Value.String(), 64)`
  unfoldable pub first_value : List Sample → Outcome F
  first_value [] = panic
  first_value (entry ∷ rest) = parse entry.text

-- A data point of a range query, with its time in seconds.
pub record InstantCpuUsage (F : Type 0) : Type 0 where
  pub timestamp : ℤ
  pub usage : F

-- NodeCpuUsage as the range query fills it, with the timestamps.
pub record NodeCpuSeries (F : Type 0) : Type 0 where
  pub node_name : String
  pub data_points : List (InstantCpuUsage F)

module _ {F Q : Type 0} (env : Env F Q) where
  -- The inner loop of GetCpuUsageByRangeSeconds.
  unfoldable pub instants_from :
      List (InstantCpuUsage F) → List (String × F) → Outcome (List (InstantCpuUsage F))
  instants_from acc [] = ok acc
  instants_from acc ((time, usage) ∷ rest) =
      bind_outcome (env.parse_int64 (env.before_dot time))
        λ ts. instants_from (acc ++ (record { timestamp = ts; usage = usage } ∷ [])) rest

  -- The outer loop.
  unfoldable pub series_from :
      List (NodeCpuSeries F) → List (Series F) → Outcome (List (NodeCpuSeries F))
  series_from acc [] = ok acc
  series_from acc (entry ∷ rest) = bind_outcome (instants_from [] entry.values) λ instants.
      let node = text_or_empty (lookup "instance" entry.labels) in
      series_from (acc ++ (record { node_name = node; data_points = instants } ∷ [])) rest

-- The loop of GetCpuCounts.
unfoldable pub counts_from : (String → Outcome ℤ) → Dict ℤ → List Sample → Outcome (Dict ℤ)
counts_from parse acc [] = ok acc
counts_from parse acc (entry ∷ rest) =
    bind_outcome (parse entry.text)
      λ n. counts_from parse (insert (label "instance" entry) n acc) rest

abbrev node_cpu_count_query : String
node_cpu_count_query = "count without(cpu, mode) (node_cpu_seconds_total{mode=\"idle\"})"

abbrev cpu_diff_metric_name : String
cpu_diff_metric_name = "node_cpu_diff"

-- A second, in nanoseconds.
abbrev second : ℕ
second = 1_000_000_000

module _ {F Q S : Type 0} (env : Env F Q) where
  -- The range is without the last second; an end before the first second of all times is cut off.
  unfoldable pub get_cpu_usage_by_range_seconds :
      Time → Time → Action (St S Q) (List (NodeCpuSeries F))
  get_cpu_usage_by_range_seconds from until = do
    result ← call (query_range "node_cpu_utilization" from (until - second)) env.series
    lift (series_from env [] result)

  unfoldable pub get_current_cpu_diff : Action (St S Q) (List (NodeCpuUsage F))
  get_current_cpu_diff = do
    result ← call (query cpu_diff_metric_name) env.samples
    lift (diffs_from env.parse_float [] result)

  unfoldable pub get_node_cpu_diff : String → Action (St S Q) F
  get_node_cpu_diff node = do
    result ←
        call
          (query (
            append_text cpu_diff_metric_name (append_text "{instance=\"" (append_text node "\"}"))))
          env.samples
    lift (first_value env.parse_float result)

  unfoldable pub get_current_energy_consumption : Action (St S Q) (Dict F)
  get_current_energy_consumption = do
    result ← call (query "fake_energy_consumption") env.samples
    lift (energies_from env.parse_float [] result)

  unfoldable pub get_cpu_counts : Action (St S Q) (Dict ℤ)
  get_cpu_counts = do
    result ← call (query node_cpu_count_query) env.samples
    lift (counts_from env.parse_int [] result)

  -- Both callers ask for five minutes.
  unfoldable pub get_avg_cpu_usages : Action (St S Q) (List (NodeInstantCpuUsage F))
  get_avg_cpu_usages = do
    result ← call (query "avg_over_time(node_cpu_utilization[5m])") env.samples
    lift (averages_from env.parse_float [] result)

module _ {F : Type 0} ⦃f : Float64 F⦄ where
  unfoldable pub sum_from : F → List F → F
  sum_from acc [] = acc
  sum_from acc (u ∷ us) = sum_from (f.add acc u) us

  unfoldable pub get_avg_instant_usage : List F → F
  unfolding sum_from
  get_avg_instant_usage usages = f.div (sum_from (num 0) usages) (num (length usages))
