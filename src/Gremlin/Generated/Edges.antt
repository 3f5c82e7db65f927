-- ===== src/Gremlin/Generated/Edges.antt =====
-- The edge classes of generated/edges.py, and `EDGE_MODELS`.
use semconv_graph.Base.{String, [], ◌∷◌}
use semconv_graph.Base.Dict.{Dict}
use semconv_graph.Gremlin.Models.{EdgeModel}
use semconv_graph.Gremlin.Generated.{edge_class}

abbrev pub container_runtime_runs_k8s_container_edge : EdgeModel
container_runtime_runs_k8s_container_edge =
    edge_class "ContainerRuntimeRunsK8sContainerEdge"
      "relationship.container_runtime_runs_k8s_container" "runs" "container.runtime" "k8s.container"

abbrev pub etl_pipeline_contains_etl_run_edge : EdgeModel
etl_pipeline_contains_etl_run_edge =
    edge_class "EtlPipelineContainsEtlRunEdge" "relationship.etl_pipeline_contains_run" "contains"
      "etl.pipeline" "etl.run"

abbrev pub etl_run_contains_etl_part_run_edge : EdgeModel
etl_run_contains_etl_part_run_edge =
    edge_class "EtlRunContainsEtlPartRunEdge" "relationship.etl_run_contains_part_run" "contains"
      "etl.run" "etl.part.run"

abbrev pub k8s_cluster_contains_k8s_namespace_edge : EdgeModel
k8s_cluster_contains_k8s_namespace_edge =
    edge_class "K8sClusterContainsK8sNamespaceEdge" "relationship.k8s_cluster_contains_namespace"
      "contains" "k8s.cluster" "k8s.namespace"

abbrev pub k8s_cluster_contains_k8s_node_edge : EdgeModel
k8s_cluster_contains_k8s_node_edge =
    edge_class "K8sClusterContainsK8sNodeEdge" "relationship.k8s_cluster_contains_node" "contains"
      "k8s.cluster" "k8s.node"

abbrev pub k8s_cluster_contains_k8s_persistentvolume_edge : EdgeModel
k8s_cluster_contains_k8s_persistentvolume_edge =
    edge_class "K8sClusterContainsK8sPersistentvolumeEdge"
      "relationship.k8s_cluster_contains_persistentvolume" "contains" "k8s.cluster"
      "k8s.persistentvolume"

abbrev pub k8s_container_runs_process_edge : EdgeModel
k8s_container_runs_process_edge =
    edge_class "K8sContainerRunsProcessEdge" "relationship.k8s_container_runs_process" "runs"
      "k8s.container" "process"

abbrev pub k8s_namespace_contains_k8s_cronjob_edge : EdgeModel
k8s_namespace_contains_k8s_cronjob_edge =
    edge_class "K8sNamespaceContainsK8sCronjobEdge" "relationship.k8s_namespace_contains_cronjob"
      "contains" "k8s.namespace" "k8s.cronjob"

abbrev pub k8s_namespace_contains_k8s_daemonset_edge : EdgeModel
k8s_namespace_contains_k8s_daemonset_edge =
    edge_class "K8sNamespaceContainsK8sDaemonsetEdge"
      "relationship.k8s_namespace_contains_daemonset" "contains" "k8s.namespace" "k8s.daemonset"

abbrev pub k8s_namespace_contains_k8s_deployment_edge : EdgeModel
k8s_namespace_contains_k8s_deployment_edge =
    edge_class "K8sNamespaceContainsK8sDeploymentEdge"
      "relationship.k8s_namespace_contains_deployment" "contains" "k8s.namespace" "k8s.deployment"

abbrev pub k8s_namespace_contains_k8s_hpa_edge : EdgeModel
k8s_namespace_contains_k8s_hpa_edge =
    edge_class "K8sNamespaceContainsK8sHpaEdge" "relationship.k8s_namespace_contains_hpa" "contains"
      "k8s.namespace" "k8s.hpa"

abbrev pub k8s_namespace_contains_k8s_job_edge : EdgeModel
k8s_namespace_contains_k8s_job_edge =
    edge_class "K8sNamespaceContainsK8sJobEdge" "relationship.k8s_namespace_contains_job" "contains"
      "k8s.namespace" "k8s.job"

abbrev pub k8s_namespace_contains_k8s_persistentvolumeclaim_edge : EdgeModel
k8s_namespace_contains_k8s_persistentvolumeclaim_edge =
    edge_class "K8sNamespaceContainsK8sPersistentvolumeclaimEdge"
      "relationship.k8s_namespace_contains_persistentvolumeclaim" "contains" "k8s.namespace"
      "k8s.persistentvolumeclaim"

abbrev pub k8s_namespace_contains_k8s_pod_edge : EdgeModel
k8s_namespace_contains_k8s_pod_edge =
    edge_class "K8sNamespaceContainsK8sPodEdge" "relationship.k8s_namespace_contains_pod" "contains"
      "k8s.namespace" "k8s.pod"

abbrev pub k8s_namespace_contains_k8s_replicaset_edge : EdgeModel
k8s_namespace_contains_k8s_replicaset_edge =
    edge_class "K8sNamespaceContainsK8sReplicasetEdge"
      "relationship.k8s_namespace_contains_replicaset" "contains" "k8s.namespace" "k8s.replicaset"

abbrev pub k8s_namespace_contains_k8s_replicationcontroller_edge : EdgeModel
k8s_namespace_contains_k8s_replicationcontroller_edge =
    edge_class "K8sNamespaceContainsK8sReplicationcontrollerEdge"
      "relationship.k8s_namespace_contains_replicationcontroller" "contains" "k8s.namespace"
      "k8s.replicationcontroller"

abbrev pub k8s_namespace_contains_k8s_resourcequota_edge : EdgeModel
k8s_namespace_contains_k8s_resourcequota_edge =
    edge_class "K8sNamespaceContainsK8sResourcequotaEdge"
      "relationship.k8s_namespace_contains_resourcequota" "contains" "k8s.namespace"
      "k8s.resourcequota"

abbrev pub k8s_namespace_contains_k8s_service_edge : EdgeModel
k8s_namespace_contains_k8s_service_edge =
    edge_class "K8sNamespaceContainsK8sServiceEdge" "relationship.k8s_namespace_contains_service"
      "contains" "k8s.namespace" "k8s.service"

abbrev pub k8s_namespace_contains_k8s_statefulset_edge : EdgeModel
k8s_namespace_contains_k8s_statefulset_edge =
    edge_class "K8sNamespaceContainsK8sStatefulsetEdge"
      "relationship.k8s_namespace_contains_statefulset" "contains" "k8s.namespace" "k8s.statefulset"

abbrev pub k8s_node_runs_k8s_pod_edge : EdgeModel
k8s_node_runs_k8s_pod_edge =
    edge_class "K8sNodeRunsK8sPodEdge" "relationship.k8s_node_runs_pod" "runs" "k8s.node" "k8s.pod"

abbrev pub k8s_pod_contains_k8s_container_edge : EdgeModel
k8s_pod_contains_k8s_container_edge =
    edge_class "K8sPodContainsK8sContainerEdge" "relationship.k8s_pod_contains_container" "contains"
      "k8s.pod" "k8s.container"

abbrev pub k8s_pod_runs_service_edge : EdgeModel
k8s_pod_runs_service_edge =
    edge_class "K8sPodRunsServiceEdge" "relationship.k8s_pod_runs_service" "runs" "k8s.pod"
      "service"

abbrev pub k8s_pod_runs_service_instance_edge : EdgeModel
k8s_pod_runs_service_instance_edge =
    edge_class "K8sPodRunsServiceInstanceEdge" "relationship.k8s_pod_runs_service_instance" "runs"
      "k8s.pod" "service.instance"

abbrev pub process_uses_process_executable_edge : EdgeModel
process_uses_process_executable_edge =
    edge_class "ProcessUsesProcessExecutableEdge" "relationship.process_uses_executable" "uses"
      "process" "process.executable"

abbrev pub process_uses_process_runtime_edge : EdgeModel
process_uses_process_runtime_edge =
    edge_class "ProcessUsesProcessRuntimeEdge" "relationship.process_uses_runtime" "uses" "process"
      "process.runtime"

abbrev pub service_built_from_vcs_repository_edge : EdgeModel
service_built_from_vcs_repository_edge =
    edge_class "ServiceBuiltFromVcsRepositoryEdge" "relationship.service_built_from_vcs_repository"
      "built_from" "service" "vcs.repository"

abbrev pub service_calls_service_edge : EdgeModel
service_calls_service_edge =
    edge_class "ServiceCallsServiceEdge" "relationship.service_calls_service" "calls" "service"
      "service"

abbrev pub service_contains_service_instance_edge : EdgeModel
service_contains_service_instance_edge =
    edge_class "ServiceContainsServiceInstanceEdge" "relationship.service_contains_service_instance"
      "contains" "service" "service.instance"

abbrev pub service_executes_transaction_edge : EdgeModel
service_executes_transaction_edge =
    edge_class "ServiceExecutesTransactionEdge" "relationship.service_executes_transaction"
      "executes" "service" "transaction"

abbrev pub service_exposes_app_endpoint_edge : EdgeModel
service_exposes_app_endpoint_edge =
    edge_class "ServiceExposesAppEndpointEdge" "relationship.service_exposes_app_endpoint" "exposes"
      "service" "app.endpoint"

abbrev pub service_instrumented_by_telemetry_distro_edge : EdgeModel
service_instrumented_by_telemetry_distro_edge =
    edge_class "ServiceInstrumentedByTelemetryDistroEdge"
      "relationship.service_instrumented_by_telemetry_distro" "instrumented_by" "service"
      "telemetry.distro"

abbrev pub service_instrumented_by_telemetry_sdk_edge : EdgeModel
service_instrumented_by_telemetry_sdk_edge =
    edge_class "ServiceInstrumentedByTelemetrySdkEdge"
      "relationship.service_instrumented_by_telemetry_sdk" "instrumented_by" "service"
      "telemetry.sdk"

abbrev pub service_namespace_contains_service_edge : EdgeModel
service_namespace_contains_service_edge =
    edge_class "ServiceNamespaceContainsServiceEdge"
      "relationship.service_namespace_contains_service" "contains" "service.namespace" "service"

abbrev pub service_publishes_to_service_edge : EdgeModel
service_publishes_to_service_edge =
    edge_class "ServicePublishesToServiceEdge" "relationship.service_publishes_to_service"
      "publishes_to" "service" "service"

abbrev pub service_queries_service_edge : EdgeModel
service_queries_service_edge =
    edge_class "ServiceQueriesServiceEdge" "relationship.service_queries_service" "queries"
      "service" "service"

abbrev pub vcs_repository_contains_vcs_ref_edge : EdgeModel
vcs_repository_contains_vcs_ref_edge =
    edge_class "VcsRepositoryContainsVcsRefEdge" "relationship.vcs_repository_contains_ref"
      "contains" "vcs.repository" "vcs.ref"

-- `EDGE_MODELS`
abbrev pub edge_models : Dict (String × String × String) EdgeModel
edge_models =
    (("container.runtime", "runs", "k8s.container"), container_runtime_runs_k8s_container_edge)
    ∷ (("etl.pipeline", "contains", "etl.run"), etl_pipeline_contains_etl_run_edge)
    ∷ (("etl.run", "contains", "etl.part.run"), etl_run_contains_etl_part_run_edge)
    ∷ (("k8s.cluster", "contains", "k8s.namespace"), k8s_cluster_contains_k8s_namespace_edge)
    ∷ (("k8s.cluster", "contains", "k8s.node"), k8s_cluster_contains_k8s_node_edge)
    ∷ (
      ("k8s.cluster", "contains", "k8s.persistentvolume"),
      k8s_cluster_contains_k8s_persistentvolume_edge,
    )
    ∷ (("k8s.container", "runs", "process"), k8s_container_runs_process_edge)
    ∷ (("k8s.namespace", "contains", "k8s.cronjob"), k8s_namespace_contains_k8s_cronjob_edge)
    ∷ (("k8s.namespace", "contains", "k8s.daemonset"), k8s_namespace_contains_k8s_daemonset_edge)
    ∷ (("k8s.namespace", "contains", "k8s.deployment"), k8s_namespace_contains_k8s_deployment_edge)
    ∷ (("k8s.namespace", "contains", "k8s.hpa"), k8s_namespace_contains_k8s_hpa_edge)
    ∷ (("k8s.namespace", "contains", "k8s.job"), k8s_namespace_contains_k8s_job_edge)
    ∷ (
      ("k8s.namespace", "contains", "k8s.persistentvolumeclaim"),
      k8s_namespace_contains_k8s_persistentvolumeclaim_edge,
    )
    ∷ (("k8s.namespace", "contains", "k8s.pod"), k8s_namespace_contains_k8s_pod_edge)
    ∷ (("k8s.namespace", "contains", "k8s.replicaset"), k8s_namespace_contains_k8s_replicaset_edge)
    ∷ (
      ("k8s.namespace", "contains", "k8s.replicationcontroller"),
      k8s_namespace_contains_k8s_replicationcontroller_edge,
    )
    ∷ (
      ("k8s.namespace", "contains", "k8s.resourcequota"),
      k8s_namespace_contains_k8s_resourcequota_edge,
    )
    ∷ (("k8s.namespace", "contains", "k8s.service"), k8s_namespace_contains_k8s_service_edge)
    ∷ (
      ("k8s.namespace", "contains", "k8s.statefulset"),
      k8s_namespace_contains_k8s_statefulset_edge,
    )
    ∷ (("k8s.node", "runs", "k8s.pod"), k8s_node_runs_k8s_pod_edge)
    ∷ (("k8s.pod", "contains", "k8s.container"), k8s_pod_contains_k8s_container_edge)
    ∷ (("k8s.pod", "runs", "service"), k8s_pod_runs_service_edge)
    ∷ (("k8s.pod", "runs", "service.instance"), k8s_pod_runs_service_instance_edge)
    ∷ (("process", "uses", "process.executable"), process_uses_process_executable_edge)
    ∷ (("process", "uses", "process.runtime"), process_uses_process_runtime_edge)
    ∷ (("service", "built_from", "vcs.repository"), service_built_from_vcs_repository_edge)
    ∷ (("service", "calls", "service"), service_calls_service_edge)
    ∷ (("service", "contains", "service.instance"), service_contains_service_instance_edge)
    ∷ (("service", "executes", "transaction"), service_executes_transaction_edge)
    ∷ (("service", "exposes", "app.endpoint"), service_exposes_app_endpoint_edge)
    ∷ (
      ("service", "instrumented_by", "telemetry.distro"),
      service_instrumented_by_telemetry_distro_edge,
    )
    ∷ (("service", "instrumented_by", "telemetry.sdk"), service_instrumented_by_telemetry_sdk_edge)
    ∷ (("service.namespace", "contains", "service"), service_namespace_contains_service_edge)
    ∷ (("service", "publishes_to", "service"), service_publishes_to_service_edge)
    ∷ (("service", "queries", "service"), service_queries_service_edge)
    ∷ (("vcs.repository", "contains", "vcs.ref"), vcs_repository_contains_vcs_ref_edge)
    ∷ []
