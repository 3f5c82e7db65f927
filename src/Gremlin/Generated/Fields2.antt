-- ===== src/Gremlin/Generated/Fields2.antt =====
-- Classes of generated/_models.py, without the descriptions of their fields.
use semconv_graph.Base.{List, [], ◌∷◌}
use semconv_graph.Gremlin.Generated.{
  Field, strict_str, strict_int, string_map, literal, required, optional,
}

abbrev pub k8s_cluster_fields : List Field
k8s_cluster_fields =
    optional "k8s_cluster_name" "k8s.cluster.name" strict_str
    ∷ required "k8s_cluster_uid" "k8s.cluster.uid" strict_str 1
    ∷ []

abbrev pub k8s_container_fields : List Field
k8s_container_fields =
    required "k8s_container_name" "k8s.container.name" strict_str 1
    ∷ optional "k8s_container_restart_count" "k8s.container.restart_count" strict_int
    ∷ optional "k8s_container_status_last_terminated_reason"
        "k8s.container.status.last_terminated_reason" strict_str
    ∷ []

abbrev pub k8s_cronjob_fields : List Field
k8s_cronjob_fields =
    optional "k8s_cronjob_annotation" "k8s.cronjob.annotation" string_map
    ∷ optional "k8s_cronjob_label" "k8s.cronjob.label" string_map
    ∷ optional "k8s_cronjob_name" "k8s.cronjob.name" strict_str
    ∷ required "k8s_cronjob_uid" "k8s.cronjob.uid" strict_str 1
    ∷ []

abbrev pub k8s_daemonset_fields : List Field
k8s_daemonset_fields =
    optional "k8s_daemonset_annotation" "k8s.daemonset.annotation" string_map
    ∷ optional "k8s_daemonset_label" "k8s.daemonset.label" string_map
    ∷ optional "k8s_daemonset_name" "k8s.daemonset.name" strict_str
    ∷ required "k8s_daemonset_uid" "k8s.daemonset.uid" strict_str 1
    ∷ []

abbrev pub k8s_deployment_fields : List Field
k8s_deployment_fields =
    optional "k8s_deployment_annotation" "k8s.deployment.annotation" string_map
    ∷ optional "k8s_deployment_label" "k8s.deployment.label" string_map
    ∷ optional "k8s_deployment_name" "k8s.deployment.name" strict_str
    ∷ required "k8s_deployment_uid" "k8s.deployment.uid" strict_str 1
    ∷ []

abbrev pub k8s_hpa_fields : List Field
k8s_hpa_fields =
    optional "k8s_hpa_name" "k8s.hpa.name" strict_str
    ∷ optional "k8s_hpa_scaletargetref_api_version" "k8s.hpa.scaletargetref.api_version" strict_str
    ∷ optional "k8s_hpa_scaletargetref_kind" "k8s.hpa.scaletargetref.kind" strict_str
    ∷ optional "k8s_hpa_scaletargetref_name" "k8s.hpa.scaletargetref.name" strict_str
    ∷ required "k8s_hpa_uid" "k8s.hpa.uid" strict_str 1
    ∷ []

abbrev pub k8s_job_fields : List Field
k8s_job_fields =
    optional "k8s_job_annotation" "k8s.job.annotation" string_map
    ∷ optional "k8s_job_label" "k8s.job.label" string_map
    ∷ optional "k8s_job_name" "k8s.job.name" strict_str
    ∷ required "k8s_job_uid" "k8s.job.uid" strict_str 1
    ∷ []

abbrev pub k8s_namespace_fields : List Field
k8s_namespace_fields =
    optional "k8s_namespace_annotation" "k8s.namespace.annotation" string_map
    ∷ optional "k8s_namespace_label" "k8s.namespace.label" string_map
    ∷ required "k8s_namespace_name" "k8s.namespace.name" strict_str 1
    ∷ []

abbrev pub k8s_node_fields : List Field
k8s_node_fields =
    optional "k8s_node_annotation" "k8s.node.annotation" string_map
    ∷ optional "k8s_node_label" "k8s.node.label" string_map
    ∷ optional "k8s_node_name" "k8s.node.name" strict_str
    ∷ required "k8s_node_uid" "k8s.node.uid" strict_str 1
    ∷ []

abbrev pub k8s_node_system_container_fields : List Field
k8s_node_system_container_fields =
    required "k8s_node_system_container_name" "k8s.node.system_container.name" strict_str 1 ∷ []

abbrev pub k8s_persistentvolume_fields : List Field
k8s_persistentvolume_fields =
    optional "k8s_persistentvolume_annotation" "k8s.persistentvolume.annotation" string_map
    ∷ optional "k8s_persistentvolume_label" "k8s.persistentvolume.label" string_map
    ∷ optional "k8s_persistentvolume_name" "k8s.persistentvolume.name" strict_str
    ∷ optional "k8s_persistentvolume_reclaim_policy" "k8s.persistentvolume.reclaim_policy"
        (literal ("Delete" ∷ "Recycle" ∷ "Retain" ∷ []))
    ∷ required "k8s_persistentvolume_uid" "k8s.persistentvolume.uid" strict_str 1
    ∷ optional "k8s_storageclass_name" "k8s.storageclass.name" strict_str
    ∷ []
