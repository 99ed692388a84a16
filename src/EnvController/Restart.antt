-- ===== src/EnvController/Restart.antt =====
-- floxenv_restart.go: the workloads that consume an environment are rolled by a stamp on their pod
-- template.
use Prim.Native.String.{slice}
use flox_controller.Prelude.{
  ℕ, zero, suc, ◌+◌, ◌/◌, ◌%◌, String, ◌<>◌, Bool, true, false, not, Option, none, some, List, [],
  ◌∷◌, ◌==◌, string_eq, if◌then◌else◌, contains, Result, ok, err, Error, other, message, error_of,
}
use flox_controller.Prelude.Dict.{get, insert}
use flox_controller.Api.{FloxEnv}
use flox_controller.Core.{Workload, deployment, daemon_set, stateful_set}
use flox_controller.Client.{Client}
use flox_controller.Floxenv.{EnvRef, ref_eq, refs_from_annotations}
use flox_controller.EnvController.Types.{Reconciler}

abbrev pub restart_marker : String
restart_marker = "flox.seedmatic.io/restarted-for-lock"

unfoldable pub hex_digit : ℕ → String
hex_digit n = slice "0123456789abcdef" n (n + 1)

-- `hex.EncodeToString(sum[:k])`
unfoldable pub hex_prefix : ℕ → List ℕ → String
unfolding hex_digit
hex_prefix zero sum = ""
hex_prefix (suc k) [] = ""
hex_prefix (suc k) (b ∷ sum) = hex_digit (b / 16) <> (hex_digit (b % 16) <> hex_prefix k sum)

unfoldable pub lock_digest : Reconciler → String → String
unfolding hex_prefix
lock_digest r lock = hex_prefix 6 (r.sha256 lock)

-- `errors.Join`: the errors that are not nil, a line each.
unfoldable pub join_errors : Option Error → Option Error → Option Error
join_errors none e = e
join_errors (some e) none = some e
join_errors (some e) (some f) = some (other (message e <> ("\n" <> message f)))

-- A workload is stamped if its template consumes the environment and has another stamp.
unfoldable pub needs_stamp : EnvRef → String → Workload → Bool
needs_stamp target digest w =
    if not (contains (refs_from_annotations w.template_annotations) target)
    then false
    else if get w.template_annotations restart_marker == digest
    then false
    else true

unfoldable pub stamped : String → Workload → Workload
stamped digest w = record w {
  template_annotations = insert restart_marker digest w.template_annotations;
}

module _ (c : Client) where
  unfoldable pub stamp_consumer : c.State → Workload → EnvRef → String → Option Error × c.State
  stamp_consumer s w target digest =
      if not (needs_stamp target digest w)
      then (none, s)
      else (let (patched, s') = c.patch_workload s w (stamped digest w) in (error_of patched, s'))

  -- The loop over one list of workloads. A failed patch does not stop it.
  unfoldable pub stamp_consumers :
      c.State → List Workload → EnvRef → String → Option Error × c.State
  stamp_consumers s [] target digest = (none, s)
  stamp_consumers s (w ∷ ws) target digest =
      let (e, s') = stamp_consumer s w target digest in
      let (f, s'') = stamp_consumers s' ws target digest in (join_errors e f, s'')

  -- The three lists are read before any workload is stamped.
  unfoldable pub roll :
      c.State
      → EnvRef
      → String
      → Result (List Workload)
      → Result (List Workload)
      → Result (List Workload)
      → Option Error × c.State
  roll s target digest (err e) daemons stateful = (some e, s)
  roll s target digest (ok deployments) (err e) stateful = (some e, s)
  roll s target digest (ok deployments) (ok daemons) (err e) = (some e, s)
  roll s target digest (ok deployments) (ok daemons) (ok stateful) =
      let (e, s') = stamp_consumers s deployments target digest in
      let (f, s'') = stamp_consumers s' daemons target digest in
      let (g, s''') = stamp_consumers s'' stateful target digest in
      (join_errors e (join_errors f g), s''')

-- The environment's coordinate, as an annotation names it.
unfoldable pub target_of : FloxEnv → EnvRef
target_of env = record {
  folder = if env.spec.folder == "" then env.namespace else env.spec.folder;
  name = env.name;
}

unfoldable pub restart_consumers :
    (r : Reconciler) → r.client.State → FloxEnv → String → Option Error × r.client.State
unfolding lock_digest target_of roll
restart_consumers r s env lock =
    roll r.client s (target_of env) (lock_digest r lock) (r.client.list_workloads s deployment)
      (r.client.list_workloads s daemon_set) (r.client.list_workloads s stateful_set)
