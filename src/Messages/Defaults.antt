-- ===== src/Messages/Defaults.antt =====
-- Constants of public/fdbus/common_defs.h that the messages start from.
use fdbus.Prelude.{ℕ}

-- FDB_EXPORTABLE_NODE_INTERNAL
abbrev pub exportable_node_internal : ℕ
exportable_node_internal = 0

-- FDB_DEFAULT_INSTANCE
abbrev pub default_instance : ℕ
default_instance = 0
