-- ===== src/Pyzhm.antt =====
-- pkg/pyzhm/pyzhm.go: the prediction of the node for each job. A scenario is the energy consumption
-- of the nodes with the requirements of the jobs.
use Prim.Native.String.{◌++◌ as append_text}
use target_exporter.Prelude.{String, Dict}
use target_exporter.Outcome.{Action, ◌>>=◌, lift}
use target_exporter.World.{post, Env, St, call}

module _ {F Q S : Type 0} (env : Env F Q) where
  unfoldable pub predict : String → Dict F → Dict F → Action (St S Q) (Dict String)
  predict address scenario requirements = do
    payload ← lift (env.marshal_scenario scenario requirements)
    response ← call (post (append_text address "/predict") payload) env.post_reply
    body ← lift response
    lift (env.unmarshal_predictions body)
