-- ===== src/Ownership/Vocabulary.antt =====
-- internal/ownership/model.go, the providers, the kinds of host resources and the inverse actions. Each is a
-- string in Go: the last constructor stands for the spellings outside the vocabulary.
use mydocker.Base.{Bool, true, false, ◌&&◌, ◌||◌, ◌==◌, Eq, discrete_eq, if◌then◌else◌}
use mydocker.Text.{Text, Text-discrete, text_eq, bytes}

pub data Provider : Type 0 where
  linux cgroup_v2 : Provider
  other_provider : Text → Provider

unfoldable pub Provider-discrete : Discrete Provider
unfolding Text-discrete
Provider-discrete = hlevel Text-discrete

instance abbrev pub provider_eq : Eq Provider
provider_eq = discrete_eq Provider-discrete

unfoldable pub is_provider : Provider → Bool
is_provider (other_provider _) = false
is_provider _ = true

pub data Kind : Type 0 where
  sandbox_cgroup attempt_cgroup keeper_cgroup keeper_process : Kind
  uts_namespace ipc_namespace network_namespace : Kind
  init_process pid_namespace mount_namespace rootfs_mount start_gate streams : Kind
  other_kind : Text → Kind

unfoldable pub Kind-discrete : Discrete Kind
unfolding Text-discrete
Kind-discrete = hlevel Text-discrete

instance abbrev pub kind_eq : Eq Kind
kind_eq = discrete_eq Kind-discrete

unfoldable pub is_kind : Kind → Bool
is_kind (other_kind _) = false
is_kind _ = true

-- string(kind)
unfoldable pub kind_text : Kind → Text
kind_text sandbox_cgroup = bytes "sandbox_cgroup"
kind_text attempt_cgroup = bytes "attempt_cgroup"
kind_text keeper_cgroup = bytes "keeper_cgroup"
kind_text keeper_process = bytes "keeper_process"
kind_text uts_namespace = bytes "uts_namespace"
kind_text ipc_namespace = bytes "ipc_namespace"
kind_text network_namespace = bytes "network_namespace"
kind_text init_process = bytes "init_process"
kind_text pid_namespace = bytes "pid_namespace"
kind_text mount_namespace = bytes "mount_namespace"
kind_text rootfs_mount = bytes "rootfs_mount"
kind_text start_gate = bytes "start_gate"
kind_text streams = bytes "streams"
kind_text (other_kind s) = s

pub data Action : Type 0 where
  remove_cgroup stop_process unmount_root close_gate close_streams : Action
  other_action : Text → Action

unfoldable pub Action-discrete : Discrete Action
unfolding Text-discrete
Action-discrete = hlevel Text-discrete

instance abbrev pub action_eq : Eq Action
action_eq = discrete_eq Action-discrete

unfoldable pub is_action : Action → Bool
is_action (other_action _) = false
is_action _ = true

-- string(action) and the conversion back.
unfoldable pub action_text : Action → Text
action_text remove_cgroup = bytes "remove_cgroup"
action_text stop_process = bytes "stop_process"
action_text unmount_root = bytes "unmount_root"
action_text close_gate = bytes "close_gate"
action_text close_streams = bytes "close_streams"
action_text (other_action s) = s

unfoldable pub action_of : Text → Action
unfolding Text-discrete
action_of s =
    if s == bytes "remove_cgroup"
    then remove_cgroup
    else if s == bytes "stop_process"
    then stop_process
    else if s == bytes "unmount_root"
    then unmount_root
    else if s == bytes "close_gate"
    then close_gate
    else if s == bytes "close_streams"
    then close_streams
    else other_action s

abbrev pub is_cgroup_kind : Kind → Bool
is_cgroup_kind k = k == sandbox_cgroup || k == attempt_cgroup || k == keeper_cgroup

-- Which inverse acts on which resource of which provider.
unfoldable pub valid_for : Action → Provider → Kind → Bool
valid_for remove_cgroup p k = p == cgroup_v2 && is_cgroup_kind k
valid_for stop_process p k = p == linux && (k == keeper_process || k == init_process)
valid_for unmount_root p k = p == linux && k == rootfs_mount
valid_for close_gate p k = p == linux && k == start_gate
valid_for close_streams p k = p == linux && k == streams
valid_for (other_action _) p k = false
