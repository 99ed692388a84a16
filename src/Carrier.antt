-- ===== src/Carrier.antt =====
-- internal/carrier/carrier.go: the embedded base carrier environment, at startup. The decoded file is
-- a parameter.
pub mod Ownership
use flox_controller.Prelude.{
  String, Bool, not, Option, none, some, ◌==◌, string_eq, if◌then◌else◌, Result, ok, err, Error,
  wrap, is_not_found,
}
use flox_controller.Prelude.Dict.{get, insert}
use flox_controller.Api.{FloxEnv}
use flox_controller.Client.{Client}

abbrev pub managed_by_label : String
managed_by_label = "app.kubernetes.io/managed-by"

abbrev pub managed_by_value : String
managed_by_value = "flox-controller"

-- The carrier in a namespace, with the label of the controller.
unfoldable pub desired_base : FloxEnv → String → FloxEnv
desired_base decoded namespace = record decoded {
  meta = record (decoded.meta) {
    namespace = namespace;
    labels = insert managed_by_label managed_by_value decoded.meta.labels;
  };
}

unfoldable pub is_managed : FloxEnv → Bool
is_managed env = get env.meta.labels managed_by_label == managed_by_value

module _ (c : Client) where
  unfoldable pub create_base : c.State → FloxEnv → Option Error × c.State
  create_base s desired =
      let (created, s') = c.create_env s desired in
      elim created [ err e ↦ (some (wrap "create base carrier" e), s') | ok stored ↦ (none, s') ]

  unfoldable pub update_base : c.State → FloxEnv → FloxEnv → Option Error × c.State
  update_base s existing desired =
      if not (is_managed existing)
      then (none, s)
      else (let (updated, s') = c.update_env s (record existing { spec = desired.spec }) in
          elim updated [
            | err e ↦ (some (wrap "update base carrier" e), s')
            | ok stored ↦ (none, s')
          ])

  unfoldable pub ensure_desired : c.State → FloxEnv → Option Error × c.State
  ensure_desired s desired = elim (c.get_env s desired.namespace desired.name) [
    | err e ↦
        if is_not_found e then create_base s desired else (some (wrap "get base carrier" e), s)
    | ok existing ↦ update_base s existing desired
  ]

  -- `EnsureBase`
  unfoldable pub ensure_base : c.State → Result FloxEnv → String → Option Error × c.State
  ensure_base s (err e) namespace = (some (wrap "parse embedded base carrier" e), s)
  ensure_base s (ok decoded) namespace = ensure_desired s (desired_base decoded namespace)
