-- ===== src/Capability/Portable.antt =====
-- capability.rs: what the portable backend observes, and the document of capabilities.
use cmdtrail.Prelude.{List, [], ◌∷◌}
use cmdtrail.Ord.{list_ord, nat_ord}
use cmdtrail.BTree.{BTreeMap, collect}
use cmdtrail.Text.{Text, codes}
use cmdtrail.Model.{Capability, full, partial, unavailable}

abbrev direct_process_lifecycle : Capability
direct_process_lifecycle = record {
  name = codes "direct_process_lifecycle";
  level = full;
  backend = codes "std_process";
  reason = codes "records spawn outcome and direct child exit, timeout, or interruption";
}

abbrev descendant_process_tree : Capability
descendant_process_tree = record {
  name = codes "descendant_process_tree";
  level = unavailable;
  backend = codes "portable_snapshot";
  reason = codes "v0.1 does not instrument descendant process start, exec, parentage, or exit";
}

abbrev persistent_filesystem_delta : Capability
persistent_filesystem_delta = record {
  name = codes "persistent_filesystem_delta";
  level = partial;
  backend = codes "portable_pre_post_snapshot";
  reason =
      codes
        "detects retained metadata and bounded content-digest differences under declared roots; transient effects and process attribution are not observed";
}

abbrev network_connections : Capability
network_connections = record {
  name = codes "network_connections";
  level = unavailable;
  backend = codes "portable_snapshot";
  reason = codes "v0.1 does not instrument network connect or accept operations";
}

abbrev listening_ports : Capability
listening_ports = record {
  name = codes "listening_ports";
  level = unavailable;
  backend = codes "portable_snapshot";
  reason = codes "v0.1 does not inspect socket lifecycle or listening ports";
}

abbrev resource_totals : Capability
resource_totals = record {
  name = codes "resource_totals";
  level = unavailable;
  backend = codes "portable_snapshot";
  reason = codes "portable per-command CPU, memory, and I/O totals are not collected";
}

abbrev delayed_descendant_effects : Capability
delayed_descendant_effects = record {
  name = codes "delayed_descendant_effects";
  level = unavailable;
  backend = codes "portable_snapshot";
  reason =
      codes
        "the post-snapshot begins after the direct child exits and does not wait for detached descendants";
}

abbrev payload_capture : Capability
payload_capture = record {
  name = codes "payload_capture";
  level = unavailable;
  backend = codes "privacy_default";
  reason =
      codes
        "stdout, stderr, environment values, file contents, and network payloads are not captured";
}

unfoldable pub portable_capabilities : List Capability
portable_capabilities =
    direct_process_lifecycle ∷ descendant_process_tree ∷ persistent_filesystem_delta
    ∷ network_connections ∷ listening_ports ∷ resource_totals ∷ delayed_descendant_effects
    ∷ payload_capture ∷ []

pub record CapabilitiesDocument : Type 0 where
  pub schema_version : Text
  pub tool_version : Text
  pub backend : Text
  pub supported_platforms : List Text
  pub capabilities : List Capability
  pub safety_defaults : BTreeMap Text Text

unfoldable pub capabilities_document : Text → CapabilitiesDocument
unfolding portable_capabilities
capabilities_document version = record {
  schema_version = codes "cmdtrail.capabilities.v1";
  tool_version = version;
  backend = codes "portable_pre_post_snapshot";
  supported_platforms =
      codes "linux-x86_64"
      ∷ codes "macos-x86_64"
      ∷ codes "macos-aarch64"
      ∷ codes "windows-x86_64"
      ∷ [];
  capabilities = portable_capabilities;
  safety_defaults = collect (
      (codes "argument_handling", codes "direct_exec_only_mandatory_separator")
      ∷ (codes "environment_capture", codes "disabled")
      ∷ (codes "file_content_capture", codes "disabled_digest_only")
      ∷ (codes "output", codes "new_private_file_no_overwrite")
      ∷ (codes "path_display", codes "relative_with_sensitive_components_redacted")
      ∷ (codes "receipt_integrity", codes "sha256_event_chain_and_canonical_receipt")
      ∷ (codes "receipt_recovery", codes "preflight_then_no_clobber_recovery_with_do_not_retry")
      ∷ (codes "unavailable_capabilities", codes "declared_not_inferred")
      ∷ []);
}
