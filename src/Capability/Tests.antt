-- ===== src/Capability/Tests.antt =====
-- The brief schema document.
use cmdtrail.Prelude.{true}
use cmdtrail.Text.{codes}
use cmdtrail.Record.Events.{effect_name}
use cmdtrail.Capability.Schema.{schema_document}
use cmdtrail.Capability.Names.{IsNamesOf, state_name, coverage_name, schema_document-IsNamesOf}

schema_document-IsNamesOf_example :
    let document = schema_document (codes "0.3.0") true in
    IsNamesOf state_name document.command_states
    × IsNamesOf effect_name document.file_effects
    × IsNamesOf coverage_name document.coverage_levels
schema_document-IsNamesOf_example = schema_document-IsNamesOf (codes "0.3.0") true
