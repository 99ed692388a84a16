-- ===== src/Conditions.antt =====
-- k8s.io/apimachinery/pkg/api/meta: the condition functions, which are not part of the repository.
use flox_controller.Prelude.{
  String, Bool, Option, none, some, List, false, ◌==◌, string_eq, if◌then◌else◌, ◌≡◌,
}
use flox_controller.Api.{Condition}

-- `SetStatusCondition`, `FindStatusCondition` and `IsStatusConditionTrue`.
pub record Conditions : Type 0 where
  pub set : Condition → List Condition → List Condition
  pub find : String → List Condition → Option Condition
  pub is_true : String → List Condition → Bool

abbrev pub status_is_true : Option Condition → Bool
status_is_true none = false
status_is_true (some c) = c.status == "True"

-- What their documentation says: a set of conditions has one of each type.
pub record IsLawful (m : Conditions) : Type 0 where
  pub find-set :
      (t : String) (c : Condition) (cs : List Condition)
      → m.find t (m.set c cs) ≡ (if t == c.type then some c else m.find t cs)
  pub is_true-find :
      (t : String) (cs : List Condition) → m.is_true t cs ≡ status_is_true (m.find t cs)
