-- ===== src/Training/StatusLaws.antt =====
-- pluginmanager/training_plugin.go, the texts of the statuses.
use mod_sec_intl_wace_lib.Base.{=ₛ_iff, String, arith, ok, refl, ◌↔◌, ◌≡◌}
use mod_sec_intl_wace_lib.Training.Status.{
  CollectionStatus, collecting, done, failed, ready, status_string, string_to_status,
}

pub string_to_status_string : (c : CollectionStatus) → string_to_status (status_string c) ≡ ok c
unfolding string_to_status status_string
string_to_status_string collecting = refl
string_to_status_string ready = refl
string_to_status_string done = refl
string_to_status_string failed = refl

string_to_status_inv :
    (s : String) (c : CollectionStatus) → string_to_status s ≡ ok c → status_string c ≡ s
unfolding string_to_status status_string
string_to_status_inv s c h =
    ground (arith, =ₛ_iff s "collecting", =ₛ_iff s "ready", =ₛ_iff s "done", =ₛ_iff s "error")

-- A text is read as a collection status exactly when it is what that status is written as.
pub string_to_status_iff :
    (s : String) (c : CollectionStatus) → (string_to_status s ≡ ok c) ↔ (status_string c ≡ s)
string_to_status_iff s c = (string_to_status_inv s c, λ e. rw (← e) (string_to_status_string c))
