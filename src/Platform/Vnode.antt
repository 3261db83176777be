-- ===== src/Platform/Vnode.antt =====
-- The data types of virtual-kubelet's model that the tunnels fill. A time is its number of
-- milliseconds since 1970; a quantity is its canonical text.
use module_controller.Prelude.{String, List}
use module_controller.Prelude.Int.{ℤ}
use module_controller.Platform.Kube.{Labels}

pub record NodeMetadata : Type 0 where
  pub name : String
  pub base_name : String
  pub cluster_name : String
  pub version : String

pub record NetworkInfo : Type 0 where
  pub node_ip : String
  pub host_name : String

pub record NodeInfo : Type 0 where
  pub metadata : NodeMetadata
  pub network_info : NetworkInfo
  pub custom_labels : Labels
  pub state : String

pub record NodeResource : Type 0 where
  pub capacity : String
  pub allocatable : String

pub record NodeStatusData : Type 0 where
  pub resources : List (String × NodeResource)
  pub node_state : String

pub record BizStatusData : Type 0 where
  pub key : String
  pub name : String
  pub state : String
  pub change_time : ℤ
  pub reason : String
  pub message : String
