-- ===== src/Flows/Protocol.antt =====
-- The flows of the FlowAggregator, as its protocol has them: what pkg/handlers/flowstream/grpc.go
-- reads of the messages. A message that is absent is `none`.
use antrea_ui.Base.{ℕ, String, Option, Bytes, Table}
use antrea_ui.Base.Int.{ℤ}

-- Seconds and nanoseconds.
abbrev pub Timestamp : Type 0
Timestamp = ℤ × ℤ

pub record PbIp : Type 0 where
  pub version : ℤ
  pub source : Bytes
  pub destination : Bytes

pub record PbTransport : Type 0 where
  pub protocol_number : ℕ
  pub source_port : ℕ
  pub destination_port : ℕ
  pub tcp : Option String

pub record PbKubernetes : Type 0 where
  pub flow_type : ℤ
  pub source_pod_namespace : String
  pub source_pod_name : String
  pub source_pod_uid : String
  pub source_pod_labels : Option (Table String)
  pub source_node_name : String
  pub source_node_uid : String
  pub destination_pod_namespace : String
  pub destination_pod_name : String
  pub destination_pod_uid : String
  pub destination_pod_labels : Option (Table String)
  pub destination_node_name : String
  pub destination_node_uid : String
  pub destination_cluster_ip : Bytes
  pub destination_service_port : ℕ
  pub destination_service_port_name : String
  pub destination_service_uid : String
  pub ingress_network_policy_type : ℤ
  pub ingress_network_policy_namespace : String
  pub ingress_network_policy_name : String
  pub ingress_network_policy_uid : String
  pub ingress_network_policy_rule_name : String
  pub ingress_network_policy_rule_action : ℤ
  pub egress_network_policy_type : ℤ
  pub egress_network_policy_namespace : String
  pub egress_network_policy_name : String
  pub egress_network_policy_uid : String
  pub egress_network_policy_rule_name : String
  pub egress_network_policy_rule_action : ℤ
  pub egress_name : String
  pub egress_ip : Bytes
  pub egress_node_name : String
  pub egress_node_uid : String
  pub egress_uid : String

pub record PbStats : Type 0 where
  pub packet_total_count : ℕ
  pub packet_delta_count : ℕ
  pub octet_total_count : ℕ
  pub octet_delta_count : ℕ

pub record PbAggregation : Type 0 where
  pub throughput : ℕ
  pub reverse_throughput : ℕ

pub record PbFlow : Type 0 where
  pub id : String
  pub end_reason : ℤ
  pub start_ts : Option Timestamp
  pub end_ts : Option Timestamp
  pub ip : Option PbIp
  pub transport : Option PbTransport
  pub k8s : Option PbKubernetes
  pub stats : Option PbStats
  pub reverse_stats : Option PbStats
  pub aggregation : Option PbAggregation
