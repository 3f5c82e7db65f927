-- ===== src/Gremlin/Generated/Fields3.antt =====
-- Classes of generated/_models.py, without the descriptions of their fields.
use semconv_graph.Base.{List, [], ◌∷◌}
use semconv_graph.Gremlin.Generated.{
  Field, strict_str, strict_int, strict_bool, string_map, string_sequence, literal, required,
  optional,
}

abbrev pub k8s_persistentvolumeclaim_fields : List Field
k8s_persistentvolumeclaim_fields =
    optional "k8s_persistentvolumeclaim_annotation" "k8s.persistentvolumeclaim.annotation"
      string_map
    ∷ optional "k8s_persistentvolumeclaim_label" "k8s.persistentvolumeclaim.label" string_map
    ∷ optional "k8s_persistentvolumeclaim_name" "k8s.persistentvolumeclaim.name" strict_str
    ∷ required "k8s_persistentvolumeclaim_uid" "k8s.persistentvolumeclaim.uid" strict_str 1
    ∷ optional "k8s_storageclass_name" "k8s.storageclass.name" strict_str
    ∷ []

abbrev pub k8s_pod_fields : List Field
k8s_pod_fields =
    optional "k8s_pod_annotation" "k8s.pod.annotation" string_map
    ∷ optional "k8s_pod_hostname" "k8s.pod.hostname" strict_str
    ∷ optional "k8s_pod_ip" "k8s.pod.ip" strict_str
    ∷ optional "k8s_pod_label" "k8s.pod.label" string_map
    ∷ optional "k8s_pod_name" "k8s.pod.name" strict_str
    ∷ optional "k8s_pod_start_time" "k8s.pod.start_time" strict_str
    ∷ required "k8s_pod_uid" "k8s.pod.uid" strict_str 1
    ∷ []

abbrev pub k8s_replicaset_fields : List Field
k8s_replicaset_fields =
    optional "k8s_replicaset_annotation" "k8s.replicaset.annotation" string_map
    ∷ optional "k8s_replicaset_label" "k8s.replicaset.label" string_map
    ∷ optional "k8s_replicaset_name" "k8s.replicaset.name" strict_str
    ∷ required "k8s_replicaset_uid" "k8s.replicaset.uid" strict_str 1
    ∷ []

abbrev pub k8s_replicationcontroller_fields : List Field
k8s_replicationcontroller_fields =
    optional "k8s_replicationcontroller_name" "k8s.replicationcontroller.name" strict_str
    ∷ required "k8s_replicationcontroller_uid" "k8s.replicationcontroller.uid" strict_str 1
    ∷ []

abbrev pub k8s_resourcequota_fields : List Field
k8s_resourcequota_fields =
    optional "k8s_resourcequota_name" "k8s.resourcequota.name" strict_str
    ∷ required "k8s_resourcequota_uid" "k8s.resourcequota.uid" strict_str 1
    ∷ []

abbrev pub k8s_service_fields : List Field
k8s_service_fields =
    optional "k8s_service_annotation" "k8s.service.annotation" string_map
    ∷ optional "k8s_service_label" "k8s.service.label" string_map
    ∷ optional "k8s_service_name" "k8s.service.name" strict_str
    ∷ optional "k8s_service_publish_not_ready_addresses" "k8s.service.publish_not_ready_addresses"
        strict_bool
    ∷ optional "k8s_service_selector" "k8s.service.selector" string_map
    ∷ optional "k8s_service_traffic_distribution" "k8s.service.traffic_distribution" strict_str
    ∷ optional "k8s_service_type" "k8s.service.type"
        (literal ("ClusterIP" ∷ "NodePort" ∷ "LoadBalancer" ∷ "ExternalName" ∷ []))
    ∷ required "k8s_service_uid" "k8s.service.uid" strict_str 1
    ∷ []

abbrev pub k8s_statefulset_fields : List Field
k8s_statefulset_fields =
    optional "k8s_statefulset_annotation" "k8s.statefulset.annotation" string_map
    ∷ optional "k8s_statefulset_label" "k8s.statefulset.label" string_map
    ∷ optional "k8s_statefulset_name" "k8s.statefulset.name" strict_str
    ∷ required "k8s_statefulset_uid" "k8s.statefulset.uid" strict_str 1
    ∷ []

abbrev pub openshift_clusterquota_fields : List Field
openshift_clusterquota_fields =
    optional "openshift_clusterquota_name" "openshift.clusterquota.name" strict_str
    ∷ required "openshift_clusterquota_uid" "openshift.clusterquota.uid" strict_str 1
    ∷ []

abbrev pub process_executable_fields : List Field
process_executable_fields =
    optional "process_executable_build_id_gnu" "process.executable.build_id.gnu" strict_str
    ∷ optional "process_executable_build_id_go" "process.executable.build_id.go" strict_str
    ∷ required "process_executable_build_id_htlhash" "process.executable.build_id.htlhash"
        strict_str 1
    ∷ optional "process_executable_name" "process.executable.name" strict_str
    ∷ optional "process_executable_path" "process.executable.path" strict_str
    ∷ []

abbrev pub process_fields : List Field
process_fields =
    optional "process_args_count" "process.args_count" strict_int
    ∷ optional "process_command" "process.command" strict_str
    ∷ optional "process_command_args" "process.command_args" string_sequence
    ∷ optional "process_command_line" "process.command_line" strict_str
    ∷ required "process_creation_time" "process.creation.time" strict_str 1
    ∷ optional "process_interactive" "process.interactive" strict_bool
    ∷ optional "process_linux_cgroup" "process.linux.cgroup" strict_str
    ∷ optional "process_owner" "process.owner" strict_str
    ∷ optional "process_parent_pid" "process.parent_pid" strict_int
    ∷ required "process_pid" "process.pid" strict_int 0
    ∷ optional "process_title" "process.title" strict_str
    ∷ optional "process_working_directory" "process.working_directory" strict_str
    ∷ []

abbrev pub process_runtime_fields : List Field
process_runtime_fields =
    optional "process_runtime_description" "process.runtime.description" strict_str
    ∷ required "process_runtime_name" "process.runtime.name" strict_str 1
    ∷ required "process_runtime_version" "process.runtime.version" strict_str 1
    ∷ []
