-- ===== src/Gremlin/Generated/Fields1.antt =====
-- Classes of generated/_models.py, without the descriptions of their fields.
use semconv_graph.Base.{List, [], ◌∷◌}
use semconv_graph.Gremlin.Generated.{Field, strict_str, literal, required, optional}

abbrev pub app_endpoint_fields : List Field
app_endpoint_fields =
    required "http_request_method" "http.request.method"
      (literal (
        "CONNECT" ∷ "DELETE" ∷ "GET" ∷ "HEAD" ∷ "OPTIONS" ∷ "PATCH" ∷ "POST" ∷ "PUT" ∷ "TRACE"
        ∷ "QUERY" ∷ "_OTHER" ∷ []))
      0
    ∷ required "http_route" "http.route" strict_str 1
    ∷ required "service_name" "service.name" strict_str 1
    ∷ required "service_namespace" "service.namespace" strict_str 1
    ∷ []

abbrev pub app_fields : List Field
app_fields =
    required "app_build_id" "app.build_id" strict_str 1
    ∷ optional "app_installation_id" "app.installation.id" strict_str
    ∷ []

abbrev pub browser_document_fields : List Field
browser_document_fields =
    required "browser_document_url_full" "browser.document.url.full" strict_str 1 ∷ []

abbrev pub cicd_pipeline_fields : List Field
cicd_pipeline_fields = required "cicd_pipeline_name" "cicd.pipeline.name" strict_str 1 ∷ []

abbrev pub cicd_pipeline_run_fields : List Field
cicd_pipeline_run_fields =
    required "cicd_pipeline_run_id" "cicd.pipeline.run.id" strict_str 1
    ∷ optional "cicd_pipeline_run_url_full" "cicd.pipeline.run.url.full" strict_str
    ∷ []

abbrev pub cicd_worker_fields : List Field
cicd_worker_fields =
    required "cicd_worker_id" "cicd.worker.id" strict_str 1
    ∷ optional "cicd_worker_name" "cicd.worker.name" strict_str
    ∷ optional "cicd_worker_url_full" "cicd.worker.url.full" strict_str
    ∷ []

abbrev pub container_runtime_fields : List Field
container_runtime_fields =
    optional "container_runtime_description" "container.runtime.description" strict_str
    ∷ required "container_runtime_name" "container.runtime.name" strict_str 1
    ∷ required "container_runtime_version" "container.runtime.version" strict_str 1
    ∷ []

abbrev pub etl_part_run_fields : List Field
etl_part_run_fields =
    optional "etl_part_name" "etl.part.name" strict_str
    ∷ required "etl_part_run_id" "etl.part.run.id" strict_str 1
    ∷ required "etl_pipeline_id" "etl.pipeline.id" strict_str 1
    ∷ required "etl_run_id" "etl.run.id" strict_str 1
    ∷ []

abbrev pub etl_pipeline_fields : List Field
etl_pipeline_fields =
    required "etl_pipeline_id" "etl.pipeline.id" strict_str 1
    ∷ optional "etl_pipeline_name" "etl.pipeline.name" strict_str
    ∷ []

abbrev pub etl_run_fields : List Field
etl_run_fields =
    required "etl_pipeline_id" "etl.pipeline.id" strict_str 1
    ∷ required "etl_run_id" "etl.run.id" strict_str 1
    ∷ optional "etl_run_name" "etl.run.name" strict_str
    ∷ []

abbrev pub gcp_gce_instance_group_manager_fields : List Field
gcp_gce_instance_group_manager_fields =
    required "gcp_gce_instance_group_manager_name" "gcp.gce.instance_group_manager.name" strict_str
      1
    ∷ required "gcp_gce_instance_group_manager_region" "gcp.gce.instance_group_manager.region"
        strict_str 1
    ∷ required "gcp_gce_instance_group_manager_zone" "gcp.gce.instance_group_manager.zone"
        strict_str 1
    ∷ []
