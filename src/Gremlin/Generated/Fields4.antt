-- ===== src/Gremlin/Generated/Fields4.antt =====
-- Classes of generated/_models.py, without the descriptions of their fields.
use semconv_graph.Base.{List, [], ◌∷◌}
use semconv_graph.Gremlin.Generated.{Field, strict_str, literal, required, optional}

abbrev pub service_fields : List Field
service_fields =
    optional "service_criticality" "service.criticality"
      (literal ("critical" ∷ "high" ∷ "medium" ∷ "low" ∷ []))
    ∷ required "service_name" "service.name" strict_str 1
    ∷ optional "service_version" "service.version" strict_str
    ∷ []

abbrev pub service_instance_fields : List Field
service_instance_fields = required "service_instance_id" "service.instance.id" strict_str 1 ∷ []

abbrev pub service_namespace_fields : List Field
service_namespace_fields = required "service_namespace" "service.namespace" strict_str 1 ∷ []

abbrev pub telemetry_distro_fields : List Field
telemetry_distro_fields =
    required "telemetry_distro_name" "telemetry.distro.name" strict_str 1
    ∷ optional "telemetry_distro_version" "telemetry.distro.version" strict_str
    ∷ []

abbrev pub telemetry_sdk_fields : List Field
telemetry_sdk_fields =
    required "telemetry_sdk_language" "telemetry.sdk.language"
      (literal (
        "cpp" ∷ "dotnet" ∷ "erlang" ∷ "go" ∷ "java" ∷ "kotlin" ∷ "nodejs" ∷ "php" ∷ "python"
        ∷ "ruby" ∷ "rust" ∷ "swift" ∷ "webjs" ∷ []))
      0
    ∷ required "telemetry_sdk_name" "telemetry.sdk.name" strict_str 1
    ∷ optional "telemetry_sdk_version" "telemetry.sdk.version" strict_str
    ∷ []

abbrev pub transaction_fields : List Field
transaction_fields =
    required "service_name" "service.name" strict_str 1
    ∷ required "span_kind" "span.kind"
        (literal (
          "SPAN_KIND_UNSPECIFIED" ∷ "SPAN_KIND_INTERNAL" ∷ "SPAN_KIND_PRODUCER"
          ∷ "SPAN_KIND_CONSUMER" ∷ []))
        0
    ∷ required "span_name" "span.name" strict_str 1
    ∷ []

abbrev pub vcs_ref_fields : List Field
vcs_ref_fields =
    optional "vcs_ref_head_name" "vcs.ref.head.name" strict_str
    ∷ required "vcs_ref_head_revision" "vcs.ref.head.revision" strict_str 1
    ∷ optional "vcs_ref_type" "vcs.ref.type" (literal ("branch" ∷ "tag" ∷ []))
    ∷ []

abbrev pub vcs_repository_fields : List Field
vcs_repository_fields =
    optional "vcs_repository_name" "vcs.repository.name" strict_str
    ∷ required "vcs_repository_url_full" "vcs.repository.url.full" strict_str 1
    ∷ []
