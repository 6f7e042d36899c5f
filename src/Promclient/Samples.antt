-- ===== src/Promclient/Samples.antt =====
-- What the queries return, by induction on the samples, and what they leave alone.
use target_exporter.Prelude.{
  ◌≡◌, refl, sym, ◌∙◌, String, List, [], ◌∷◌, ◌++◌, append_assoc, append-nil, subst, arith,
}
use target_exporter.Outcome.{Outcome, ok, err, panic, OnOk, and_then, bind_outcome}
use target_exporter.World.{Sample, Env, St}
use target_exporter.Promclient.{
  NodeCpuUsage, label, diffs_from, get_current_cpu_diff, get_avg_cpu_usages, get_cpu_counts,
}

-- A query changes none of the caller's own fields.
module _ {F Q S : Type 0} (env : Env F Q) (st : St S Q) where
  pub get_current_cpu_diff-own : (get_current_cpu_diff env st).1.own ≡ st.own
  unfolding get_current_cpu_diff
  get_current_cpu_diff-own = ground arith

  pub get_avg_cpu_usages-own : (get_avg_cpu_usages env st).1.own ≡ st.own
  unfolding get_avg_cpu_usages
  get_avg_cpu_usages-own = ground arith

  pub get_cpu_counts-own : (get_cpu_counts env st).1.own ≡ st.own
  unfolding get_cpu_counts
  get_cpu_counts-own = ground arith

-- One data point, so that `Data[0]` and `Data[len(Data)-1]` are in range.
abbrev pub HasPoint : {F : Type 0} → NodeCpuUsage F → Type 0
HasPoint {F} u = (x : F) × (u.usages ≡ x ∷ [])

module _ {F : Type 0} (parse : String → Outcome F) where
  -- Sample by sample: the node is the label, and the one data point is the parsed value.
  abbrev pub Reads : List Sample → List (NodeCpuUsage F) → Type 0
  Reads [] [] = Unit
  Reads (entry ∷ rest) (u ∷ us) =
      (u.node_name ≡ label "instance" entry)
      × ((x : F) × (parse entry.text ≡ ok x) × (u.usages ≡ x ∷ []))
      × Reads rest us
  Reads _ _ = ⊥

  -- What the loop adds to the list that it is given.
  abbrev Adds : List (NodeCpuUsage F) → List Sample → List (NodeCpuUsage F) → Type 0
  Adds acc entries out = (new : List (NodeCpuUsage F)) × (out ≡ acc ++ new) × Reads entries new

  Adds-cons :
      (acc : List (NodeCpuUsage F)) (entry : Sample) (rest : List Sample) (x : F)
      (out : List (NodeCpuUsage F))
      → parse entry.text ≡ ok x
      → Adds (acc ++ (record { node_name = label "instance" entry; usages = x ∷ [] } ∷ [])) rest out
      → Adds acc (entry ∷ rest) out
  Adds-cons acc entry rest x out p (new, e, r) =
      let u : NodeCpuUsage F = record { node_name = label "instance" entry; usages = x ∷ [] } in
      (u ∷ new, e ∙ append_assoc acc (u ∷ []) new, (refl, (x, p, refl), r))

  OnOk-map :
      {P R : List (NodeCpuUsage F) → Type 0} (o : Outcome (List (NodeCpuUsage F)))
      → ((out : List (NodeCpuUsage F)) → P out → R out)
      → OnOk P o
      → OnOk R o
  OnOk-map (ok a) g h = g a h
  OnOk-map (err e) g h = tt
  OnOk-map panic g h = tt

  diffs_from-Adds :
      (acc : List (NodeCpuUsage F)) (entries : List Sample)
      → OnOk (Adds acc entries) (diffs_from parse acc entries)
  unfolding diffs_from
  diffs_from-Adds acc [] = ([], sym (append-nil acc), tt)
  diffs_from-Adds acc (entry ∷ rest) =
      go (parse entry.text) refl (λ longer. diffs_from-Adds longer rest)
    where
      go :
          (o : Outcome F)
          → parse entry.text ≡ o
          → ((longer : List (NodeCpuUsage F))
              → OnOk (Adds longer rest) (diffs_from parse longer rest))
          → OnOk (Adds acc (entry ∷ rest)) (
              bind_outcome o λ usage.
                diffs_from parse
                  (acc ++ (record { node_name = label "instance" entry; usages = usage ∷ [] } ∷ []))
                  rest)
      go (ok x) e ih = OnOk-map _ (λ out a. Adds-cons acc entry rest x out e a) (ih _)
      go (err t) e ih = tt
      go panic e ih = tt

-- What GetCurrentCpuDiff returns without an error has one difference for each sample, in order: its
-- node is the sample's label `instance`, and its one data point is the sample's parsed value.
pub get_current_cpu_diff-Reads :
    {F Q S : Type 0} (env : Env F Q) (st : St S Q) (entries : List Sample)
    → env.samples st.log ≡ ok entries
    → OnOk (Reads env.parse_float entries) (get_current_cpu_diff env st).0
unfolding get_current_cpu_diff
get_current_cpu_diff-Reads env st entries e =
    rw (e, and_then)
      (OnOk-map env.parse_float {P = Adds env.parse_float [] entries} _
        (λ out (new, same, r). subst (Reads env.parse_float entries) (sym same) r)
        (diffs_from-Adds env.parse_float [] entries))
