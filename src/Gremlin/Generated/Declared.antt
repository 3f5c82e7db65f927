-- ===== src/Gremlin/Generated/Declared.antt =====
-- The fields that each entity class of the package declares, by its type.
use semconv_graph.Base.{String, List, [], ◌∷◌}
use semconv_graph.Base.Dict.{Dict}
use semconv_graph.Gremlin.Generated.{Field}
use semconv_graph.Gremlin.Generated.Fields1.{
  app_endpoint_fields, app_fields, browser_document_fields, cicd_pipeline_fields,
  cicd_pipeline_run_fields, cicd_worker_fields, container_runtime_fields, etl_part_run_fields,
  etl_pipeline_fields, etl_run_fields, gcp_gce_instance_group_manager_fields,
}
use semconv_graph.Gremlin.Generated.Fields2.{
  k8s_cluster_fields, k8s_container_fields, k8s_cronjob_fields, k8s_daemonset_fields,
  k8s_deployment_fields, k8s_hpa_fields, k8s_job_fields, k8s_namespace_fields, k8s_node_fields,
  k8s_node_system_container_fields, k8s_persistentvolume_fields,
}
use semconv_graph.Gremlin.Generated.Fields3.{
  k8s_persistentvolumeclaim_fields, k8s_pod_fields, k8s_replicaset_fields,
  k8s_replicationcontroller_fields, k8s_resourcequota_fields, k8s_service_fields,
  k8s_statefulset_fields, openshift_clusterquota_fields, process_executable_fields, process_fields,
  process_runtime_fields,
}
use semconv_graph.Gremlin.Generated.Fields4.{
  service_fields, service_instance_fields, service_namespace_fields, telemetry_distro_fields,
  telemetry_sdk_fields, transaction_fields, vcs_ref_fields, vcs_repository_fields,
}

-- The fields that each class declares.
abbrev pub entity_fields : Dict String (List Field)
entity_fields =
    ("app", app_fields)
    ∷ ("app.endpoint", app_endpoint_fields)
    ∷ ("browser.document", browser_document_fields)
    ∷ ("cicd.pipeline", cicd_pipeline_fields)
    ∷ ("cicd.pipeline.run", cicd_pipeline_run_fields)
    ∷ ("cicd.worker", cicd_worker_fields)
    ∷ ("container.runtime", container_runtime_fields)
    ∷ ("etl.part.run", etl_part_run_fields)
    ∷ ("etl.pipeline", etl_pipeline_fields)
    ∷ ("etl.run", etl_run_fields)
    ∷ ("gcp.gce.instance_group_manager", gcp_gce_instance_group_manager_fields)
    ∷ ("k8s.cluster", k8s_cluster_fields)
    ∷ ("k8s.container", k8s_container_fields)
    ∷ ("k8s.cronjob", k8s_cronjob_fields)
    ∷ ("k8s.daemonset", k8s_daemonset_fields)
    ∷ ("k8s.deployment", k8s_deployment_fields)
    ∷ ("k8s.hpa", k8s_hpa_fields)
    ∷ ("k8s.job", k8s_job_fields)
    ∷ ("k8s.namespace", k8s_namespace_fields)
    ∷ ("k8s.node", k8s_node_fields)
    ∷ ("k8s.node.system_container", k8s_node_system_container_fields)
    ∷ ("k8s.persistentvolume", k8s_persistentvolume_fields)
    ∷ ("k8s.persistentvolumeclaim", k8s_persistentvolumeclaim_fields)
    ∷ ("k8s.pod", k8s_pod_fields)
    ∷ ("k8s.replicaset", k8s_replicaset_fields)
    ∷ ("k8s.replicationcontroller", k8s_replicationcontroller_fields)
    ∷ ("k8s.resourcequota", k8s_resourcequota_fields)
    ∷ ("k8s.service", k8s_service_fields)
    ∷ ("k8s.statefulset", k8s_statefulset_fields)
    ∷ ("openshift.clusterquota", openshift_clusterquota_fields)
    ∷ ("process", process_fields)
    ∷ ("process.executable", process_executable_fields)
    ∷ ("process.runtime", process_runtime_fields)
    ∷ ("service", service_fields)
    ∷ ("service.instance", service_instance_fields)
    ∷ ("service.namespace", service_namespace_fields)
    ∷ ("telemetry.distro", telemetry_distro_fields)
    ∷ ("telemetry.sdk", telemetry_sdk_fields)
    ∷ ("transaction", transaction_fields)
    ∷ ("vcs.ref", vcs_ref_fields)
    ∷ ("vcs.repository", vcs_repository_fields)
    ∷ []
