-- ===== src/Flows/Conversion.antt =====
-- ipBytesToString and protoFlowToAPI (pkg/handlers/flowstream/grpc.go). The accessors of the generated
-- code read an absent field as a zero value.
use Prim.Native.String.{◌++◌ as str_append}
use antrea_ui.Base.{ℕ, String, Option, none, some, [], ◌∷◌, Bytes, Table}
use antrea_ui.Base.Int.{pos}
use antrea_ui.Flows.Types.{FlowStats, FlowTcp, FlowTransport, FlowIp, FlowKubernetes, Flow}
use antrea_ui.Flows.Protocol.{
  Timestamp, PbIp, PbTransport, PbKubernetes, PbStats, PbAggregation, PbFlow,
}

-- RFC 3339 with nanoseconds; the text of an address of 4 or 16 bytes, `none` for other lengths; and
-- the verb `%x`.
pub record FlowFormats : Type 0 where
  pub rfc3339_nano : Timestamp → String
  pub addr_from_slice : Bytes → Option String
  pub hex : Bytes → String

abbrev pub zero_ip : FlowIp
zero_ip = record { version = pos 0; source = ""; destination = "" }

abbrev pub zero_transport : FlowTransport
zero_transport = record { protocol_number = 0; source_port = 0; destination_port = 0; tcp = none }

abbrev pub zero_stats : FlowStats
zero_stats = record {
  packet_total_count = 0;
  packet_delta_count = 0;
  octet_total_count = 0;
  octet_delta_count = 0;
  throughput = 0;
}

abbrev pub zero_kubernetes : FlowKubernetes
zero_kubernetes = record {
  flow_type = pos 0;
  source_pod_namespace = "";
  source_pod_name = "";
  source_pod_uid = "";
  source_pod_labels = [];
  source_node_name = "";
  source_node_uid = "";
  destination_pod_namespace = "";
  destination_pod_name = "";
  destination_pod_uid = "";
  destination_pod_labels = [];
  destination_node_name = "";
  destination_node_uid = "";
  destination_cluster_ip = "";
  destination_service_port = 0;
  destination_service_port_name = "";
  destination_service_uid = "";
  ingress_network_policy_type = pos 0;
  ingress_network_policy_namespace = "";
  ingress_network_policy_name = "";
  ingress_network_policy_uid = "";
  ingress_network_policy_rule_name = "";
  ingress_network_policy_rule_action = pos 0;
  egress_network_policy_type = pos 0;
  egress_network_policy_namespace = "";
  egress_network_policy_name = "";
  egress_network_policy_uid = "";
  egress_network_policy_rule_name = "";
  egress_network_policy_rule_action = pos 0;
  egress_name = "";
  egress_ip = "";
  egress_node_name = "";
  egress_node_uid = "";
  egress_uid = "";
}

abbrev pub labels_of : Option (Table String) → Table String
labels_of none = []
labels_of (some t) = t

abbrev pub tcp_of : Option String → Option FlowTcp
tcp_of none = none
tcp_of (some name) = some (record { state_name = name })

module _ (f : FlowFormats) where
  abbrev pub address_or_invalid : Bytes → Option String → String
  address_or_invalid b none = str_append "<invalid-ip:" (str_append (f.hex b) ">")
  address_or_invalid b (some text) = text

  unfoldable pub ip_bytes_to_string : Bytes → String
  ip_bytes_to_string [] = ""
  ip_bytes_to_string (c ∷ cs) = address_or_invalid (c ∷ cs) (f.addr_from_slice (c ∷ cs))

  abbrev pub time_text : Option Timestamp → String
  time_text none = ""
  time_text (some t) = f.rfc3339_nano t

  abbrev pub ip_to_api : Option PbIp → FlowIp
  unfolding ip_bytes_to_string
  ip_to_api none = zero_ip
  ip_to_api (some ip) = record {
    version = ip.version;
    source = ip_bytes_to_string ip.source;
    destination = ip_bytes_to_string ip.destination;
  }

  abbrev pub transport_to_api : Option PbTransport → FlowTransport
  transport_to_api none = zero_transport
  transport_to_api (some t) = record {
    protocol_number = t.protocol_number;
    source_port = t.source_port;
    destination_port = t.destination_port;
    tcp = tcp_of t.tcp;
  }

  abbrev pub kubernetes_to_api : Option PbKubernetes → FlowKubernetes
  unfolding ip_bytes_to_string
  kubernetes_to_api none = zero_kubernetes
  kubernetes_to_api (some k) = record {
    flow_type = k.flow_type;
    source_pod_namespace = k.source_pod_namespace;
    source_pod_name = k.source_pod_name;
    source_pod_uid = k.source_pod_uid;
    source_pod_labels = labels_of k.source_pod_labels;
    source_node_name = k.source_node_name;
    source_node_uid = k.source_node_uid;
    destination_pod_namespace = k.destination_pod_namespace;
    destination_pod_name = k.destination_pod_name;
    destination_pod_uid = k.destination_pod_uid;
    destination_pod_labels = labels_of k.destination_pod_labels;
    destination_node_name = k.destination_node_name;
    destination_node_uid = k.destination_node_uid;
    destination_cluster_ip = ip_bytes_to_string k.destination_cluster_ip;
    destination_service_port = k.destination_service_port;
    destination_service_port_name = k.destination_service_port_name;
    destination_service_uid = k.destination_service_uid;
    ingress_network_policy_type = k.ingress_network_policy_type;
    ingress_network_policy_namespace = k.ingress_network_policy_namespace;
    ingress_network_policy_name = k.ingress_network_policy_name;
    ingress_network_policy_uid = k.ingress_network_policy_uid;
    ingress_network_policy_rule_name = k.ingress_network_policy_rule_name;
    ingress_network_policy_rule_action = k.ingress_network_policy_rule_action;
    egress_network_policy_type = k.egress_network_policy_type;
    egress_network_policy_namespace = k.egress_network_policy_namespace;
    egress_network_policy_name = k.egress_network_policy_name;
    egress_network_policy_uid = k.egress_network_policy_uid;
    egress_network_policy_rule_name = k.egress_network_policy_rule_name;
    egress_network_policy_rule_action = k.egress_network_policy_rule_action;
    egress_name = k.egress_name;
    egress_ip = ip_bytes_to_string k.egress_ip;
    egress_node_name = k.egress_node_name;
    egress_node_uid = k.egress_node_uid;
    egress_uid = k.egress_uid;
  }

  -- `throughput` is read off the aggregation, in the direction of the statistics.
  abbrev pub stats_to_api : Option PbStats → ℕ → FlowStats
  stats_to_api none throughput = zero_stats
  stats_to_api (some s) throughput = record {
    packet_total_count = s.packet_total_count;
    packet_delta_count = s.packet_delta_count;
    octet_total_count = s.octet_total_count;
    octet_delta_count = s.octet_delta_count;
    throughput = throughput;
  }

  abbrev pub throughput_of : Option PbAggregation → ℕ
  throughput_of none = 0
  throughput_of (some a) = a.throughput

  abbrev pub reverse_throughput_of : Option PbAggregation → ℕ
  reverse_throughput_of none = 0
  reverse_throughput_of (some a) = a.reverse_throughput

  unfoldable pub proto_flow_to_api : PbFlow → Flow
  proto_flow_to_api pb = record {
    id = pb.id;
    start_ts = time_text pb.start_ts;
    end_ts = time_text pb.end_ts;
    end_reason = pb.end_reason;
    ip = ip_to_api pb.ip;
    transport = transport_to_api pb.transport;
    k8s = kubernetes_to_api pb.k8s;
    stats = stats_to_api pb.stats (throughput_of pb.aggregation);
    reverse_stats = stats_to_api pb.reverse_stats (reverse_throughput_of pb.aggregation);
  }
