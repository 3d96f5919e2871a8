-- ===== src/Flows/Types.antt =====
-- The flows that the server streams (apis/v1/flow.go). An enumeration is the integer that stands for
-- it, as in Go; a map that is nil has no entries.
use antrea_ui.Base.{ℕ, String, Option, List, Table}
use antrea_ui.Base.Int.{ℤ}

pub record FlowStats : Type 0 where
  pub packet_total_count : ℕ
  pub packet_delta_count : ℕ
  pub octet_total_count : ℕ
  pub octet_delta_count : ℕ
  pub throughput : ℕ

pub record FlowTcp : Type 0 where
  pub state_name : String

pub record FlowTransport : Type 0 where
  pub protocol_number : ℕ
  pub source_port : ℕ
  pub destination_port : ℕ
  pub tcp : Option FlowTcp

pub record FlowIp : Type 0 where
  pub version : ℤ
  pub source : String
  pub destination : String

pub record FlowKubernetes : Type 0 where
  pub flow_type : ℤ
  pub source_pod_namespace : String
  pub source_pod_name : String
  pub source_pod_uid : String
  pub source_pod_labels : Table String
  pub source_node_name : String
  pub source_node_uid : String
  pub destination_pod_namespace : String
  pub destination_pod_name : String
  pub destination_pod_uid : String
  pub destination_pod_labels : Table String
  pub destination_node_name : String
  pub destination_node_uid : String
  pub destination_cluster_ip : String
  pub destination_service_port : ℕ
  pub destination_service_port_name : String
  pub destination_service_uid : String
  pub ingress_network_policy_type : ℤ
  pub ingress_network_policy_namespace : String
  pub ingress_network_policy_name : String
  pub ingress_network_policy_uid : String
  pub ingress_network_policy_rule_name : String
  pub ingress_network_policy_rule_action : ℤ
  pub egress_network_policy_type : ℤ
  pub egress_network_policy_namespace : String
  pub egress_network_policy_name : String
  pub egress_network_policy_uid : String
  pub egress_network_policy_rule_name : String
  pub egress_network_policy_rule_action : ℤ
  pub egress_name : String
  pub egress_ip : String
  pub egress_node_name : String
  pub egress_node_uid : String
  pub egress_uid : String

pub record Flow : Type 0 where
  pub id : String
  pub start_ts : String
  pub end_ts : String
  pub end_reason : ℤ
  pub ip : FlowIp
  pub transport : FlowTransport
  pub k8s : FlowKubernetes
  pub stats : FlowStats
  pub reverse_stats : FlowStats

pub record FlowStreamEvent : Type 0 where
  pub flows : List Flow
  pub dropped_count : ℕ
