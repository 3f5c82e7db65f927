-- ===== src/Gremlin/Generated/Entities.antt =====
-- The entity classes of generated/entities.py, and `ENTITY_MODELS`.
use semconv_graph.Base.{String, [], ◌∷◌}
use semconv_graph.Base.Dict.{Dict}
use semconv_graph.Gremlin.Models.{EntityModel}
use semconv_graph.Gremlin.Generated.{entity_class}
use semconv_graph.Gremlin.Generated.Fields1.{
  app_endpoint_fields, app_fields, browser_document_fields, cicd_pipeline_fields,
  cicd_pipeline_run_fields, cicd_worker_fields, container_runtime_fields, etl_part_run_fields,
  etl_pipeline_fields, etl_run_fields, gcp_gce_instance_group_manager_fields,
}
use semconv_graph.Gremlin.Generated.Fields2.{
  k8s_cluster_fields, k8s_container_fields, k8s_cronjob_fields, k8s_daemonset_fields,
  k8s_deployment_fields, k8s_hpa_fields, k8s_job_fields, k8s_namespace_fields, k8s_node_fields,
  k8s_node_system_container_fields, k8s_persistentvolume_fields,
}
use semconv_graph.Gremlin.Generated.Fields3.{
  k8s_persistentvolumeclaim_fields, k8s_pod_fields, k8s_replicaset_fields,
  k8s_replicationcontroller_fields, k8s_resourcequota_fields, k8s_service_fields,
  k8s_statefulset_fields, openshift_clusterquota_fields, process_executable_fields, process_fields,
  process_runtime_fields,
}
use semconv_graph.Gremlin.Generated.Fields4.{
  service_fields, service_instance_fields, service_namespace_fields, telemetry_distro_fields,
  telemetry_sdk_fields, transaction_fields, vcs_ref_fields, vcs_repository_fields,
}

abbrev pub app_entity : EntityModel
app_entity = entity_class "App" "app" ("app.build_id" ∷ []) [] app_fields

abbrev pub app_endpoint_entity : EntityModel
app_endpoint_entity =
    entity_class "AppEndpoint" "app.endpoint"
      ("service.name" ∷ "service.namespace" ∷ "http.request.method" ∷ "http.route" ∷ []) []
      app_endpoint_fields

abbrev pub browser_document_entity : EntityModel
browser_document_entity =
    entity_class "BrowserDocument" "browser.document" ("browser.document.url.full" ∷ []) []
      browser_document_fields

abbrev pub cicd_pipeline_entity : EntityModel
cicd_pipeline_entity =
    entity_class "CicdPipeline" "cicd.pipeline" ("cicd.pipeline.name" ∷ []) [] cicd_pipeline_fields

abbrev pub cicd_pipeline_run_entity : EntityModel
cicd_pipeline_run_entity =
    entity_class "CicdPipelineRun" "cicd.pipeline.run" ("cicd.pipeline.run.id" ∷ []) []
      cicd_pipeline_run_fields

abbrev pub cicd_worker_entity : EntityModel
cicd_worker_entity =
    entity_class "CicdWorker" "cicd.worker" ("cicd.worker.id" ∷ []) [] cicd_worker_fields

abbrev pub container_runtime_entity : EntityModel
container_runtime_entity =
    entity_class "ContainerRuntime" "container.runtime"
      ("container.runtime.name" ∷ "container.runtime.version" ∷ []) [] container_runtime_fields

abbrev pub etl_part_run_entity : EntityModel
etl_part_run_entity =
    entity_class "EtlPartRun" "etl.part.run"
      ("etl.pipeline.id" ∷ "etl.run.id" ∷ "etl.part.run.id" ∷ []) [] etl_part_run_fields

abbrev pub etl_pipeline_entity : EntityModel
etl_pipeline_entity =
    entity_class "EtlPipeline" "etl.pipeline" ("etl.pipeline.id" ∷ []) [] etl_pipeline_fields

abbrev pub etl_run_entity : EntityModel
etl_run_entity =
    entity_class "EtlRun" "etl.run" ("etl.pipeline.id" ∷ "etl.run.id" ∷ []) [] etl_run_fields

abbrev pub gcp_gce_instance_group_manager_entity : EntityModel
gcp_gce_instance_group_manager_entity =
    entity_class "GcpGceInstanceGroupManager" "gcp.gce.instance_group_manager"
      ("gcp.gce.instance_group_manager.name" ∷ "gcp.gce.instance_group_manager.zone"
        ∷ "gcp.gce.instance_group_manager.region" ∷ [])
      [] gcp_gce_instance_group_manager_fields

abbrev pub k8s_cluster_entity : EntityModel
k8s_cluster_entity =
    entity_class "K8sCluster" "k8s.cluster" ("k8s.cluster.uid" ∷ []) [] k8s_cluster_fields

abbrev pub k8s_container_entity : EntityModel
k8s_container_entity =
    entity_class "K8sContainer" "k8s.container" ("k8s.container.name" ∷ []) [] k8s_container_fields

abbrev pub k8s_cronjob_entity : EntityModel
k8s_cronjob_entity =
    entity_class "K8sCronjob" "k8s.cronjob" ("k8s.cronjob.uid" ∷ [])
      ("k8s.cronjob.label" ∷ "k8s.cronjob.annotation" ∷ []) k8s_cronjob_fields

abbrev pub k8s_daemonset_entity : EntityModel
k8s_daemonset_entity =
    entity_class "K8sDaemonset" "k8s.daemonset" ("k8s.daemonset.uid" ∷ [])
      ("k8s.daemonset.label" ∷ "k8s.daemonset.annotation" ∷ []) k8s_daemonset_fields

abbrev pub k8s_deployment_entity : EntityModel
k8s_deployment_entity =
    entity_class "K8sDeployment" "k8s.deployment" ("k8s.deployment.uid" ∷ [])
      ("k8s.deployment.label" ∷ "k8s.deployment.annotation" ∷ []) k8s_deployment_fields

abbrev pub k8s_hpa_entity : EntityModel
k8s_hpa_entity = entity_class "K8sHpa" "k8s.hpa" ("k8s.hpa.uid" ∷ []) [] k8s_hpa_fields

abbrev pub k8s_job_entity : EntityModel
k8s_job_entity =
    entity_class "K8sJob" "k8s.job" ("k8s.job.uid" ∷ [])
      ("k8s.job.label" ∷ "k8s.job.annotation" ∷ []) k8s_job_fields

abbrev pub k8s_namespace_entity : EntityModel
k8s_namespace_entity =
    entity_class "K8sNamespace" "k8s.namespace" ("k8s.namespace.name" ∷ [])
      ("k8s.namespace.label" ∷ "k8s.namespace.annotation" ∷ []) k8s_namespace_fields

abbrev pub k8s_node_entity : EntityModel
k8s_node_entity =
    entity_class "K8sNode" "k8s.node" ("k8s.node.uid" ∷ [])
      ("k8s.node.label" ∷ "k8s.node.annotation" ∷ []) k8s_node_fields

abbrev pub k8s_node_system_container_entity : EntityModel
k8s_node_system_container_entity =
    entity_class "K8sNodeSystemContainer" "k8s.node.system_container"
      ("k8s.node.system_container.name" ∷ []) [] k8s_node_system_container_fields

abbrev pub k8s_persistentvolume_entity : EntityModel
k8s_persistentvolume_entity =
    entity_class "K8sPersistentvolume" "k8s.persistentvolume" ("k8s.persistentvolume.uid" ∷ [])
      ("k8s.persistentvolume.label" ∷ "k8s.persistentvolume.annotation" ∷ [])
      k8s_persistentvolume_fields

abbrev pub k8s_persistentvolumeclaim_entity : EntityModel
k8s_persistentvolumeclaim_entity =
    entity_class "K8sPersistentvolumeclaim" "k8s.persistentvolumeclaim"
      ("k8s.persistentvolumeclaim.uid" ∷ [])
      ("k8s.persistentvolumeclaim.label" ∷ "k8s.persistentvolumeclaim.annotation" ∷ [])
      k8s_persistentvolumeclaim_fields

abbrev pub k8s_pod_entity : EntityModel
k8s_pod_entity =
    entity_class "K8sPod" "k8s.pod" ("k8s.pod.uid" ∷ [])
      ("k8s.pod.label" ∷ "k8s.pod.annotation" ∷ []) k8s_pod_fields

abbrev pub k8s_replicaset_entity : EntityModel
k8s_replicaset_entity =
    entity_class "K8sReplicaset" "k8s.replicaset" ("k8s.replicaset.uid" ∷ [])
      ("k8s.replicaset.label" ∷ "k8s.replicaset.annotation" ∷ []) k8s_replicaset_fields

abbrev pub k8s_replicationcontroller_entity : EntityModel
k8s_replicationcontroller_entity =
    entity_class "K8sReplicationcontroller" "k8s.replicationcontroller"
      ("k8s.replicationcontroller.uid" ∷ []) [] k8s_replicationcontroller_fields

abbrev pub k8s_resourcequota_entity : EntityModel
k8s_resourcequota_entity =
    entity_class "K8sResourcequota" "k8s.resourcequota" ("k8s.resourcequota.uid" ∷ []) []
      k8s_resourcequota_fields

abbrev pub k8s_service_entity : EntityModel
k8s_service_entity =
    entity_class "K8sService" "k8s.service" ("k8s.service.uid" ∷ [])
      ("k8s.service.selector" ∷ "k8s.service.label" ∷ "k8s.service.annotation" ∷ [])
      k8s_service_fields

abbrev pub k8s_statefulset_entity : EntityModel
k8s_statefulset_entity =
    entity_class "K8sStatefulset" "k8s.statefulset" ("k8s.statefulset.uid" ∷ [])
      ("k8s.statefulset.label" ∷ "k8s.statefulset.annotation" ∷ []) k8s_statefulset_fields

abbrev pub openshift_clusterquota_entity : EntityModel
openshift_clusterquota_entity =
    entity_class "OpenshiftClusterquota" "openshift.clusterquota"
      ("openshift.clusterquota.uid" ∷ []) [] openshift_clusterquota_fields

abbrev pub process_entity : EntityModel
process_entity =
    entity_class "Process" "process" ("process.pid" ∷ "process.creation.time" ∷ []) []
      process_fields

abbrev pub process_executable_entity : EntityModel
process_executable_entity =
    entity_class "ProcessExecutable" "process.executable"
      ("process.executable.build_id.htlhash" ∷ []) [] process_executable_fields

abbrev pub process_runtime_entity : EntityModel
process_runtime_entity =
    entity_class "ProcessRuntime" "process.runtime"
      ("process.runtime.name" ∷ "process.runtime.version" ∷ []) [] process_runtime_fields

abbrev pub service_entity : EntityModel
service_entity = entity_class "Service" "service" ("service.name" ∷ []) [] service_fields

abbrev pub service_instance_entity : EntityModel
service_instance_entity =
    entity_class "ServiceInstance" "service.instance" ("service.instance.id" ∷ []) []
      service_instance_fields

abbrev pub service_namespace_entity : EntityModel
service_namespace_entity =
    entity_class "ServiceNamespace" "service.namespace" ("service.namespace" ∷ []) []
      service_namespace_fields

abbrev pub telemetry_distro_entity : EntityModel
telemetry_distro_entity =
    entity_class "TelemetryDistro" "telemetry.distro" ("telemetry.distro.name" ∷ []) []
      telemetry_distro_fields

abbrev pub telemetry_sdk_entity : EntityModel
telemetry_sdk_entity =
    entity_class "TelemetrySdk" "telemetry.sdk"
      ("telemetry.sdk.name" ∷ "telemetry.sdk.language" ∷ []) [] telemetry_sdk_fields

abbrev pub transaction_entity : EntityModel
transaction_entity =
    entity_class "Transaction" "transaction" ("service.name" ∷ "span.name" ∷ "span.kind" ∷ []) []
      transaction_fields

abbrev pub vcs_ref_entity : EntityModel
vcs_ref_entity = entity_class "VcsRef" "vcs.ref" ("vcs.ref.head.revision" ∷ []) [] vcs_ref_fields

abbrev pub vcs_repository_entity : EntityModel
vcs_repository_entity =
    entity_class "VcsRepository" "vcs.repository" ("vcs.repository.url.full" ∷ []) []
      vcs_repository_fields

-- `ENTITY_MODELS`
abbrev pub entity_models : Dict String EntityModel
entity_models =
    ("app", app_entity)
    ∷ ("app.endpoint", app_endpoint_entity)
    ∷ ("browser.document", browser_document_entity)
    ∷ ("cicd.pipeline", cicd_pipeline_entity)
    ∷ ("cicd.pipeline.run", cicd_pipeline_run_entity)
    ∷ ("cicd.worker", cicd_worker_entity)
    ∷ ("container.runtime", container_runtime_entity)
    ∷ ("etl.part.run", etl_part_run_entity)
    ∷ ("etl.pipeline", etl_pipeline_entity)
    ∷ ("etl.run", etl_run_entity)
    ∷ ("gcp.gce.instance_group_manager", gcp_gce_instance_group_manager_entity)
    ∷ ("k8s.cluster", k8s_cluster_entity)
    ∷ ("k8s.container", k8s_container_entity)
    ∷ ("k8s.cronjob", k8s_cronjob_entity)
    ∷ ("k8s.daemonset", k8s_daemonset_entity)
    ∷ ("k8s.deployment", k8s_deployment_entity)
    ∷ ("k8s.hpa", k8s_hpa_entity)
    ∷ ("k8s.job", k8s_job_entity)
    ∷ ("k8s.namespace", k8s_namespace_entity)
    ∷ ("k8s.node", k8s_node_entity)
    ∷ ("k8s.node.system_container", k8s_node_system_container_entity)
    ∷ ("k8s.persistentvolume", k8s_persistentvolume_entity)
    ∷ ("k8s.persistentvolumeclaim", k8s_persistentvolumeclaim_entity)
    ∷ ("k8s.pod", k8s_pod_entity)
    ∷ ("k8s.replicaset", k8s_replicaset_entity)
    ∷ ("k8s.replicationcontroller", k8s_replicationcontroller_entity)
    ∷ ("k8s.resourcequota", k8s_resourcequota_entity)
    ∷ ("k8s.service", k8s_service_entity)
    ∷ ("k8s.statefulset", k8s_statefulset_entity)
    ∷ ("openshift.clusterquota", openshift_clusterquota_entity)
    ∷ ("process", process_entity)
    ∷ ("process.executable", process_executable_entity)
    ∷ ("process.runtime", process_runtime_entity)
    ∷ ("service", service_entity)
    ∷ ("service.instance", service_instance_entity)
    ∷ ("service.namespace", service_namespace_entity)
    ∷ ("telemetry.distro", telemetry_distro_entity)
    ∷ ("telemetry.sdk", telemetry_sdk_entity)
    ∷ ("transaction", transaction_entity)
    ∷ ("vcs.ref", vcs_ref_entity)
    ∷ ("vcs.repository", vcs_repository_entity)
    ∷ []
